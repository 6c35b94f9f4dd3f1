-- ===== src/Tests/LifeBench.antt =====
-- The bench keeps what a platform and an application promise.
use zephyr_uds.Base.{refl, arith}
use zephyr_uds.Platform.{default_config}
use zephyr_uds.Platform.WeakDefaults.{weak_defaults}
use zephyr_uds.Security
use zephyr_uds.Security.{is_locked_out}
use zephyr_uds.Security.Guessing.{power_on-IsCounting}
use zephyr_uds.Security.Persistence.{NvsLaws}
use zephyr_uds.Server.Machine.{power_on}
use zephyr_uds.Server.Quiet.{Quiet}
use zephyr_uds.Server.Lock.Isolation.{stored_items, Isolated}
use zephyr_uds.Server.Lock.Sound.{Behaved, IsSound}
use zephyr_uds.Security.{Security}
use zephyr_uds.Tests.Bench.{
  World, bench_os, bench_app, bench_nvs, bench_fills, default_config-IsConfig,
}
use zephyr_uds.Tests.ServerBench.{fresh}

weak_nvs : NvsLaws default_config bench_os (weak_defaults World)
unfolding weak_defaults
weak_nvs = record {
  read_written = λ w id x. ground arith;
  read_other = λ w id other x differ. ground arith;
  read_entropy = λ w n id. refl;
  read_mount = λ w id. refl;
  read_verify = λ w level seed key id. refl;
}

weak_quiet : Quiet (stored_items bench_os) bench_os (weak_defaults World)
unfolding weak_defaults
weak_quiet = record {
  can_start = λ w id. refl;
  read_did = λ w did max_len id. refl;
  write_did = λ w did bytes id. refl;
  io_control = λ w did control_param bytes id. refl;
  routine_start = λ w routine_id id. refl;
  request_results = λ w routine_id id. refl;
  freeze_frame = λ w dtc record_num max_len id. refl;
  periodic_did = λ w did id. refl;
  clear_dtcs = λ w fs dtc_group id. refl;
}

weak_isolated : Isolated bench_os (weak_defaults World)
unfolding weak_defaults
weak_isolated = record {
  quiet = weak_quiet;
  erase = λ w address size id. refl;
  write_block = λ w offset bytes id. refl;
}

bench_quiet : Quiet (stored_items bench_os) bench_os bench_app
bench_quiet = record {
  can_start = λ w id. refl;
  read_did = λ w did max_len id. refl;
  write_did = λ w did bytes id. refl;
  io_control = λ w did control_param bytes id. refl;
  routine_start = λ w routine_id id. refl;
  request_results = λ w routine_id id. refl;
  freeze_frame = λ w dtc record_num max_len id. refl;
  periodic_did = λ w did id. refl;
  clear_dtcs = λ w fs dtc_group id. refl;
}

bench_isolated : Isolated bench_os bench_app
bench_isolated = record {
  quiet = bench_quiet;
  erase = λ w address size id. refl;
  write_block = λ w offset bytes id. refl;
}

pub weak_behaved : Behaved default_config bench_os (weak_defaults World)
weak_behaved = record {
  valid = default_config-IsConfig;
  fills = bench_fills;
  nvs = weak_nvs;
  isolated = weak_isolated;
  up = record { can = λ w. refl; storage = λ w. refl; sized = λ w. (3, refl); mounted = λ w. refl };
}

pub bench_behaved : Behaved default_config bench_os bench_app
bench_behaved = record {
  valid = default_config-IsConfig;
  fills = bench_fills;
  nvs = bench_nvs;
  isolated = bench_isolated;
  up = record { can = λ w. refl; storage = λ w. refl; sized = λ w. (3, refl); mounted = λ w. refl };
}

pub fresh_weak-IsSound : IsSound default_config bench_os (weak_defaults World) fresh
unfolding power_on Security.power_on
fresh_weak-IsSound = record {
  counting = power_on-IsCounting default_config default_config-IsConfig;
  persisted = record { counter = refl; lockout = refl };
}

pub fresh-IsSound : IsSound default_config bench_os bench_app fresh
unfolding power_on Security.power_on
fresh-IsSound = record {
  counting = power_on-IsCounting default_config default_config-IsConfig;
  persisted = record { counter = refl; lockout = refl };
}
