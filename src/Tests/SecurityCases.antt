-- ===== src/Tests/SecurityCases.antt =====
-- SecurityAccess at concrete inputs.
use zephyr_uds.Base.{ℕ, ◌≡◌, ◌↔◌, ◌⊎◌, refl, [], ◌∷◌, Buffer, holding, replicate, arith}
use zephyr_uds.Types.{SecurityStatus, locked, seed_requested, unlocked, brute_force_lockout, send}
use zephyr_uds.Platform.{default_config}
use zephyr_uds.Security.{
  Security, handle_request, request_seed, send_key, count_failure, generate_seed, local_key,
}
use zephyr_uds.Security.Access.{KeyAccepted, unlocked_iff_accepted}
use zephyr_uds.Security.Guessing.{IsCounting}
use zephyr_uds.Tests.Bench.{World, blank, put, bench_os, bench_app, zeros}

abbrev with_status : SecurityStatus → ℕ → Security
with_status status attempts = record {
  status = status;
  generated_seed = replicate 4 7;
  failed_attempts_counter = attempts;
}

abbrev seed_message : Buffer
seed_message = holding (0x27 ∷ 0x01 ∷ [])

abbrev good_key : Buffer
good_key = holding (0x27 ∷ 0x02 ∷ 9 ∷ 1 ∷ 2 ∷ 3 ∷ [])

abbrev bad_key : Buffer
bad_key = holding (0x27 ∷ 0x02 ∷ 8 ∷ 1 ∷ 2 ∷ 3 ∷ [])

-- A seed request is answered with the seed.
seed_answer :
    (handle_request default_config bench_os bench_app blank
      (with_status locked 0)
      seed_message
      2
      zeros).1.out
    ≡ send (0x67 ∷ 0x01 ∷ 7 ∷ 7 ∷ 7 ∷ 7 ∷ []) ∷ []
unfolding handle_request request_seed generate_seed
seed_answer = refl

-- The third wrong key starts the lockout.
third_failure :
    (handle_request default_config bench_os bench_app blank
      (with_status seed_requested 2)
      bad_key
      6
      zeros).0.status
    ≡ brute_force_lockout
unfolding handle_request send_key count_failure local_key
third_failure = refl

unlocked_iff_accepted_example :
    ((handle_request default_config bench_os bench_app blank
        (with_status seed_requested 0)
        good_key
        6
        zeros).0.status
      ≡ unlocked)
    ↔ ((◌≡◌ {A = SecurityStatus} seed_requested unlocked)
        ⊎ KeyAccepted default_config bench_os bench_app blank
            (with_status seed_requested 0)
            good_key
            6)
unlocked_iff_accepted_example =
    unlocked_iff_accepted default_config bench_os bench_app blank (with_status seed_requested 0)
      good_key 6 zeros

abbrev locked_world : World
locked_world = put (put blank 1 (3 ∷ [])) 2 (1 ∷ [])

locked_out-IsCounting : IsCounting default_config (with_status brute_force_lockout 3)
locked_out-IsCounting = ground arith
