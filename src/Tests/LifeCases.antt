-- ===== src/Tests/LifeCases.antt =====
-- Lives of the controller, with restarts, and interleavings of a clearing, at concrete inputs.
use zephyr_uds.Base.{ℕ, ◌+◌, ◌≤◌, ◌≡◌, refl, false, List, [], ◌∷◌, arith}
use zephyr_uds.Types.{unlocked, brute_force_lockout, extended_session, physical, send}
use zephyr_uds.Platform.{default_config}
use zephyr_uds.Platform.WeakDefaults.{weak_defaults}
use zephyr_uds.Security
use zephyr_uds.Security.{is_locked_out}
use zephyr_uds.Security.Automaton.{access, follow, asks, presents, relocks, expires}
use zephyr_uds.Server.State.{Server}
use zephyr_uds.Server.Machine.{
  Moment, happens, restarts, received, lockout_expires, power_on, step, run, live,
}
use zephyr_uds.Server.Lock.Sound.{IsSound, live-IsSound}
use zephyr_uds.Server.Lock.Lives.{guesses_in_life, guesses_bounded_for_life}
use zephyr_uds.Session
use zephyr_uds.Routine
use zephyr_uds.Reset
use zephyr_uds.ClearDtc
use zephyr_uds.Server.Services
use zephyr_uds.Server.State.{perform, perform_all, send_nrc}
use zephyr_uds.Server.Process.{serve, service, process_request}
use zephyr_uds.Server.Machine
use zephyr_uds.Server.Machine.{receive, moment, restart}
use zephyr_uds.Server.Lock.LockoutTimer.{watch_lockout, lockout_timed}
use zephyr_uds.Server.Lock.Admission.{
  alive, session_message, seed_message, key_message, tester_gets_in,
}
use zephyr_uds.Server.Lock.PowerLoss.{failure_writes, written, started, power_loss_in_failure}
use zephyr_uds.Base.{take}
use zephyr_uds.Types.{seed_requested, locked}
use zephyr_uds.Security.{Security}
use zephyr_uds.Tests.Bench.{put, blank}
use zephyr_uds.Server.Lock.Refinement.{signals, live-eq-follow}
use zephyr_uds.Tests.Bench.{
  World, zeros, bench_os, bench_app, bench_nvs, bench_fills, default_config-IsConfig,
}
use zephyr_uds.Tests.LifeBench.{weak_behaved, bench_behaved, fresh_weak-IsSound, fresh-IsSound}
use zephyr_uds.Tests.ServerBench.{fresh}

abbrev seed : Moment
seed = happens (received physical seed_message)

abbrev key : ℕ → Moment
key first = happens (received physical (key_message (first ∷ 1 ∷ 2 ∷ 3 ∷ [])))

-- A wrong key, a reboot, a right key, and a loss of power.
abbrev life : List Moment
life = seed ∷ key 8 ∷ restarts zeros 0 ∷ seed ∷ key 9 ∷ restarts zeros 7 ∷ []

-- Three wrong keys, which start a lockout, a reboot in it, its end, and one more.
abbrev attack : List Moment
attack =
    seed
    ∷ key 1
    ∷ seed
    ∷ key 2
    ∷ seed
    ∷ key 3
    ∷ restarts zeros 0
    ∷ happens lockout_expires
    ∷ seed
    ∷ key 4
    ∷ []

live-IsSound_example :
    IsSound default_config bench_os bench_app (live default_config bench_os bench_app fresh life)
live-IsSound_example =
    live-IsSound default_config bench_os bench_app bench_behaved fresh life fresh-IsSound

-- What the automaton is told of the attack.
attack-signals :
    signals default_config bench_os bench_app fresh attack
    ≡ asks
      ∷ presents false
      ∷ asks
      ∷ presents false
      ∷ asks
      ∷ presents false
      ∷ relocks
      ∷ expires
      ∷ asks
      ∷ presents false
      ∷ []
unfolding signals moment restart step receive process_request serve service Services.security_access
    Security.handle_request Security.request_seed Security.generate_seed Security.send_key
    Security.local_key Security.grant Security.count_failure Security.lockout_timer_expiry
    Session.refresh_timer perform_all perform send_nrc Machine.init Session.init Security.init
    Security.restore Routine.init Reset.init ClearDtc.init power_on Security.power_on
attack-signals = refl

live-eq-follow_example :
    access (live default_config bench_os bench_app fresh attack).security
    ≡ follow 3
        (record { status = locked; failures = 0 })
        (signals default_config bench_os bench_app fresh attack)
unfolding power_on Security.power_on
live-eq-follow_example =
    live-eq-follow default_config bench_os bench_app bench_behaved fresh attack fresh-IsSound

guesses_bounded_for_life_example :
    guesses_in_life default_config bench_os (weak_defaults World) fresh attack + 0 ≤ 6
unfolding weak_defaults power_on Security.power_on
guesses_bounded_for_life_example =
    guesses_bounded_for_life default_config bench_os (weak_defaults World) weak_behaved
      (λ w level bytes tried. refl) fresh attack fresh_weak-IsSound

lockout_timed_example :
    let (armed, s) = watch_lockout default_config bench_os bench_app false fresh attack in
    armed ≡ is_locked_out s.security.status
unfolding power_on Security.power_on
lockout_timed_example = lockout_timed default_config bench_os bench_app false fresh attack refl

abbrev key_of : List ℕ → List ℕ
key_of bytes = 9 ∷ 1 ∷ 2 ∷ 3 ∷ []

abbrev locked_out : Server World
locked_out = record fresh {
  security = record {
    status = brute_force_lockout;
    generated_seed = 1 ∷ 2 ∷ 3 ∷ 4 ∷ [];
    failed_attempts_counter = 3;
  };
}

tester_gets_in_example :
    let s0 = (run default_config bench_os bench_app locked_out (lockout_expires ∷ [])).0 in
    let s1 = (step default_config bench_os bench_app s0 (received physical session_message)).0 in
    let (s2, answer) = step default_config bench_os bench_app s1 (received physical seed_message) in
    let (s3, answer') =
      step default_config bench_os bench_app s2
        (received physical (key_message (key_of s2.security.generated_seed))) in
    (answer
      ≡ alive default_config bench_os bench_app
        ∷ send (0x67 ∷ 0x01 ∷ s2.security.generated_seed)
        ∷ [])
    × (answer' ≡ alive default_config bench_os bench_app ∷ send (0x67 ∷ 0x02 ∷ []) ∷ [])
    × (s3.session ≡ extended_session)
    × (s3.security.status ≡ unlocked)
unfolding power_on Security.power_on
tester_gets_in_example =
    tester_gets_in default_config bench_os bench_app (omega arith) bench_fills key_of
      (record { accepted = λ w bytes. refl; sized = λ bytes size. refl }) locked_out refl

-- Two failed keys, and the power lost behind the first write for the third.
abbrev two_failed : Security
two_failed = record {
  status = seed_requested;
  generated_seed = 1 ∷ 2 ∷ 3 ∷ 4 ∷ [];
  failed_attempts_counter = 2;
}

abbrev two_failures : World
two_failures = put blank 1 (2 ∷ [])

power_loss_in_failure_example :
    let writes = failure_writes default_config bench_os bench_app two_failed in
    let s' =
      started default_config bench_os bench_app
        (written default_config bench_os bench_app two_failures (take 1 writes)) in
    ((Security.count_failure default_config bench_os bench_app two_failures two_failed zeros
        zeros).1.world
      ≡ written default_config bench_os bench_app two_failures writes)
    × (s'.failed_attempts_counter ≡ 3)
    × (s'.status ≡ locked)
power_loss_in_failure_example =
    power_loss_in_failure default_config bench_os bench_app bench_nvs default_config-IsConfig
      bench_behaved.up two_failures two_failed zeros zeros 1 (ground arith)
      (record { counter = refl; lockout = refl }) (λ e. ground arith)
