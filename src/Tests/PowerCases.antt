-- ===== src/Tests/PowerCases.antt =====
-- Losses of power at concrete inputs, and the sampling thread.
use zephyr_uds.Base.{ℕ, Buffer, ◌≡◌, refl, List, [], ◌∷◌, holding, take}
use zephyr_uds.Types.{locked, brute_force_lockout}
use zephyr_uds.Platform.{default_config}
use zephyr_uds.Platform.WeakDefaults.{weak_defaults}
use zephyr_uds.Security.{Security, lockout_timer_expiry}
use zephyr_uds.Security.Persistence.{IsPersisted}
use zephyr_uds.Server.Lock.PowerLoss.{written, started}
use zephyr_uds.Server.Lock.PowerCuts.{expiry_writes, power_loss_in_expiry, cut_rounds}
use zephyr_uds.Periodic
use zephyr_uds.Tests.Bench.{World, zeros, put, blank, bench_os, bench_app, bench_nvs}
use zephyr_uds.Tests.LifeBench.{bench_behaved}

-- A lockout, and the power lost behind the first write at its end.
abbrev in_lockout : Security
in_lockout = record {
  status = brute_force_lockout;
  generated_seed = 1 ∷ 2 ∷ 3 ∷ 4 ∷ [];
  failed_attempts_counter = 3;
}

abbrev stored_lockout : World
stored_lockout = put (put blank 1 (3 ∷ [])) 2 (1 ∷ [])

stored_lockout-IsPersisted : IsPersisted default_config bench_os bench_app stored_lockout in_lockout
stored_lockout-IsPersisted = record { counter = refl; lockout = refl }

power_loss_in_expiry_example :
    let writes = expiry_writes default_config bench_os bench_app in
    let s' =
      started default_config bench_os bench_app
        (written default_config bench_os bench_app stored_lockout (take 1 writes)) in
    ((lockout_timer_expiry default_config bench_os stored_lockout in_lockout).0
      ≡ written default_config bench_os bench_app stored_lockout writes)
    × (s'.status ≡ brute_force_lockout)
    × (s'.failed_attempts_counter ≡ 3)
power_loss_in_expiry_example =
    power_loss_in_expiry default_config bench_os bench_app bench_nvs bench_behaved.up stored_lockout
      in_lockout 1 stored_lockout-IsPersisted refl

-- Four wrong keys with a limit of three, the power lost each time, and a fifth.
abbrev at_start : Security
at_start = record {
  status = locked;
  generated_seed = 0 ∷ 0 ∷ 0 ∷ 0 ∷ [];
  failed_attempts_counter = 0;
}

abbrev wrong : List ℕ
wrong = 1 ∷ 2 ∷ 3 ∷ 4 ∷ []

abbrev four_cuts : World × Security
four_cuts =
    cut_rounds default_config bench_os (weak_defaults World) blank at_start zeros
      (wrong ∷ wrong ∷ wrong ∷ wrong ∷ [])

-- Two identifiers, and a request that is too short.
abbrev requests : List (Buffer × ℕ)
requests =
    (holding (0x2A ∷ 0x01 ∷ 0x77 ∷ []), 3)
    ∷ (holding (0x2A ∷ []), 1)
    ∷ (holding (0x2A ∷ 0x01 ∷ 0x78 ∷ []), 3)
    ∷ []
