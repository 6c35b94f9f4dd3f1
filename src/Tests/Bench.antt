-- ===== src/Tests/Bench.antt =====
-- A world that holds a flash memory and the items of NVS, with drivers that work, and an
-- application that accepts the keys that begin with 9.
use zephyr_uds.Base.{
  ℕ, ◌≡◌, refl, true, false, some, List, [], ◌∷◌, length, length-replicate, replicate, get_or, ◌==◌,
  if◌then◌else◌, Buffer, copy, arith,
}
use zephyr_uds.Types.{success, failure, eacces, enoent}
use zephyr_uds.Security.Persistence.{NvsLaws}
use zephyr_uds.Platform.{
  IsConfig, default_config, NvsRead, item, read_failed, Os, App, Reading, app_fs,
}

pub record World : Type 0 where
  pub memory : Buffer
  pub nvs : ℕ → List ℕ

abbrev pub blank : World
blank = record { memory = λ i. 0; nvs = λ id. [] }

abbrev pub stored_item : List ℕ → NvsRead
stored_item [] = read_failed enoent
stored_item (x ∷ xs) = item (length (x ∷ xs)) (x ∷ xs)

abbrev pub put : World → ℕ → List ℕ → World
put w id bytes = record w { nvs = λ j. if j == id then bytes else w.nvs j }

abbrev pub bench_os : Os World
bench_os = record {
  can_ready = λ w. true;
  entropy_ready = λ w. true;
  storage_ready = λ w. true;
  can_start = λ w. (w, success);
  get_entropy = λ w n. (w, some (replicate n 7));
  uptime_32 = λ w. 0;
  page_size = λ w. some 4096;
  partition_size = 16384;
  nvs_mount = λ w. (w, success);
  nvs_read = λ w fs id len. stored_item (w.nvs id);
  nvs_write = λ w fs id bytes. put w id bytes;
  work_is_pending = λ w work. false;
  stack = λ w i. 0xAA;
}

abbrev pub sample_reading : Reading
sample_reading = record { ret = success; written = 10 ∷ 11 ∷ 12 ∷ 13 ∷ []; len_out = some 4 }

abbrev pub bench_app : App World
bench_app = record {
  read_did = λ w did max_len. (w, sample_reading);
  write_did = λ w did data_in. (w, success);
  io_control = λ w did control_param control_state. (w, success, some 1);
  routine_start = λ w routine_id. (w, success, some 0);
  routine_request_results = λ w routine_id. (w, success, some 0, some 0);
  flash_erase_target = λ w address size. (w, success);
  flash_write_block = λ w offset bytes. (record w { memory = copy w.memory offset bytes }, success);
  get_freeze_frame = λ w dtc record_num max_len. (w, sample_reading);
  verify_key_krypto =
      λ w level seed key. (w, (if get_or key 0 0 == 9 then success else failure eacces));
  get_periodic_did = λ w did. (w, sample_reading);
  get_nvs_context = λ w. some (app_fs 0);
  clear_persistent_dtcs = λ w fs dtc_group. (w, success);
  write_persistent_data = λ w fs id bytes. (put w id bytes, success);
}

abbrev pub zeros : Buffer
zeros i = 0

pub default_config-IsConfig : IsConfig default_config
default_config-IsConfig = omega arith

pub bench_fills :
    (w : World) (n : ℕ) (bytes : List ℕ)
    → (bench_os.get_entropy w n).1 ≡ some bytes
    → length bytes ≡ n
bench_fills w n bytes e = ground (arith, length-replicate {A = ℕ} n 7)

pub bench_nvs : NvsLaws default_config bench_os bench_app
bench_nvs = record {
  read_written = λ w id x. ground arith;
  read_other = λ w id other x differ. ground arith;
  read_entropy = λ w n id. refl;
  read_mount = λ w id. refl;
  read_verify = λ w level seed key id. refl;
}
