-- ===== src/Server/Lock/Lives.antt =====
-- src/uds_security.c within src/uds_server.c: the keys that a tester can try, over the life of a
-- controller that is switched off and on.
use native.Mathlib.Nat.{mul-suc}
use zephyr_uds.Base.{ℕ, suc, ◌+◌, ◌*◌, ◌≤◌, List, [], ◌∷◌, if◌then◌else◌, arith, ◌≡◌}
use zephyr_uds.Platform.{Config, Os, App}
use zephyr_uds.Server.State.{Server}
use zephyr_uds.Server.Machine.{Moment, happens, restarts, restart, step, moment}
use zephyr_uds.Server.Lock.BruteForce.{AcceptsNone, guess_by, is_lockout_expiry, step-counts}
use zephyr_uds.Server.Lock.Sound.{Behaved, IsSound, restart-IsSound, moment-IsSound}

module _ {W : Type 0} (c : Config) (os : Os W) (app : App W) where
  -- The guesses in a life, and the times that the lockout expires in it.
  pub guesses_in_life : Server W → List Moment → ℕ
  guesses_in_life s [] = 0
  guesses_in_life s (happens e ∷ rest) =
      guess_by c os app s e + guesses_in_life (moment c os app s (happens e)) rest
  guesses_in_life s (restarts stack data_len ∷ rest) =
      guesses_in_life (moment c os app s (restarts stack data_len)) rest

  abbrev pub expiries_in_life : List Moment → ℕ
  expiries_in_life [] = 0
  expiries_in_life (happens e ∷ rest) =
      if is_lockout_expiry c os app e then suc (expiries_in_life rest) else expiries_in_life rest
  expiries_in_life (restarts stack data_len ∷ rest) = expiries_in_life rest

  -- What a life adds to the limit.
  abbrev allowance : List Moment → ℕ
  allowance [] = c.max_failed_attempts
  allowance (happens e ∷ rest) =
      if is_lockout_expiry c os app e
      then c.max_failed_attempts + allowance rest
      else allowance rest
  allowance (restarts stack data_len ∷ rest) = allowance rest

  allowance-eq-mul :
      (ms : List Moment) → allowance ms ≡ c.max_failed_attempts * suc (expiries_in_life ms)
  allowance-eq-mul [] = omega arith
  allowance-eq-mul (happens e ∷ rest) =
      ground
        (arith, allowance-eq-mul rest, mul-suc c.max_failed_attempts (suc (expiries_in_life rest)))
  allowance-eq-mul (restarts stack data_len ∷ rest) = allowance-eq-mul rest

  guesses_allowed :
      Behaved c os app
      → AcceptsNone c os app
      → (s : Server W) (ms : List Moment) → IsSound c os app s
      → guesses_in_life s ms + s.security.failed_attempts_counter ≤ allowance ms
  unfolding guesses_in_life moment
  guesses_allowed h none_fits s [] sound = ground (arith, sound.counting)
  guesses_allowed h none_fits s (happens e ∷ rest) sound =
      let (counting, cost) = step-counts c os app h.valid h.fills none_fits s e sound.counting in
      let later =
        guesses_allowed h none_fits (step c os app s e).0 rest
          (moment-IsSound c os app h s (happens e) sound) in
      ground (arith, cost, later)
  guesses_allowed h none_fits s (restarts stack data_len ∷ rest) sound =
      let (sound', more) = restart-IsSound c os app h s stack data_len sound in
      omega
        (arith, more, guesses_allowed h none_fits (restart c os app s stack data_len) rest sound')

  -- Over any life of the controller, of messages, expiries, work items and samples, and of reboots
  -- and losses of power between any two of them, while the verifier accepts no key, a tester gets
  -- no more guesses, with the failed keys counted before, than the limit times one more than the
  -- number of times that the lockout expires. So a restart gives no guess. The configuration is
  -- valid, the entropy source fills its buffer, the platform comes up at every start, NVS keeps its
  -- laws, the hooks leave the module's file system alone, and at first the counter was right and
  -- stored.
  pub guesses_bounded_for_life :
      Behaved c os app
      → AcceptsNone c os app
      → (s : Server W) (life : List Moment) → IsSound c os app s
      → guesses_in_life s life + s.security.failed_attempts_counter
        ≤ c.max_failed_attempts * suc (expiries_in_life life)
  guesses_bounded_for_life h none_fits s life sound =
      omega (arith, guesses_allowed h none_fits s life sound, allowance-eq-mul life)
