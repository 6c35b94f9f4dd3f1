-- ===== src/Tests/TargetBench.antt =====
-- The memory of the bench is a flash that is programmed.
use zephyr_uds.Base.{ℕ, refl, inl, inr, length, copy, copy_before, copy_behind, Buffer, List}
use zephyr_uds.Platform.{default_config}
use zephyr_uds.Flash.Programming.{KeptOutside}
use zephyr_uds.Server.Programming.{IsTarget}
use zephyr_uds.Platform.WeakDefaults.{weak_defaults}
use zephyr_uds.Tests.Bench.{World, bench_os, bench_app}

abbrev pub flash_of : World → Buffer
flash_of w = w.memory

copy-KeptOutside :
    (m : Buffer) (address : ℕ) (bytes : List ℕ)
    → KeptOutside address (length bytes) m (copy m address bytes)
copy-KeptOutside m address bytes i (inl before) = copy_before m address i bytes before
copy-KeptOutside m address bytes i (inr behind) = copy_behind m address i bytes behind

pub bench_target : IsTarget default_config bench_os bench_app flash_of
bench_target = record {
  quiet = record {
    can_start = λ w i. refl;
    read_did = λ w did max_len i. refl;
    write_did = λ w did bytes i. refl;
    io_control = λ w did control_param bytes i. refl;
    routine_start = λ w routine_id i. refl;
    request_results = λ w routine_id i. refl;
    freeze_frame = λ w dtc record_num max_len i. refl;
    periodic_did = λ w did i. refl;
    clear_dtcs = λ w fs dtc_group i. refl;
  };
  flash = record {
    erases = λ w address size i outside. refl;
    writes = λ w offset bytes. copy-KeptOutside w.memory offset bytes;
    written = λ w offset bytes done. refl;
  };
  mount = λ w i. refl;
  nvs_write = λ w id x i. refl;
  entropy = λ w n i. refl;
  verify = λ w level seed key i. refl;
}

pub weak_target : IsTarget default_config bench_os (weak_defaults World) flash_of
unfolding weak_defaults
weak_target = record {
  quiet = record {
    can_start = λ w i. refl;
    read_did = λ w did max_len i. refl;
    write_did = λ w did bytes i. refl;
    io_control = λ w did control_param bytes i. refl;
    routine_start = λ w routine_id i. refl;
    request_results = λ w routine_id i. refl;
    freeze_frame = λ w dtc record_num max_len i. refl;
    periodic_did = λ w did i. refl;
    clear_dtcs = λ w fs dtc_group i. refl;
  };
  flash = record {
    erases = λ w address size i outside. refl;
    writes = λ w offset bytes i outside. refl;
    written = λ w offset bytes done. cc;
  };
  mount = λ w i. refl;
  nvs_write = λ w id x i. refl;
  entropy = λ w n i. refl;
  verify = λ w level seed key i. refl;
}
