-- ===== src/Security/Automaton.antt =====
-- What SecurityAccess promises, apart from how src/uds_security.c keeps it: an automaton on the
-- status and the number of failed keys, which is driven by what a tester and the clock do.
use zephyr_uds.Base.{
  ℕ, suc, ◌+◌, ◌-◌, ◌≡◌, Bool, true, false, ◌&&◌, ◌||◌, leb, ◌==◌, if◌then◌else◌, List, [], ◌∷◌,
  Buffer, arith,
}
use zephyr_uds.Types.{SecurityStatus, locked, seed_requested, unlocked, brute_force_lockout}
use zephyr_uds.Platform.{Config, IsConfig, Os, App, ok}
use zephyr_uds.Security.{
  Security, local_key, handle_request, request_seed, generate_seed, send_key, grant, count_failure,
}
use zephyr_uds.Security.Guessing.{IsCounting}

-- The automaton's state.
pub record Access : Type 0 where
  pub status : SecurityStatus
  pub failures : ℕ

abbrev pub access : Security → Access
access s = record { status = s.status; failures = s.failed_attempts_counter }

-- What happens to it: a seed is asked for; a key is presented, with what the verifier says of it;
-- the session changes or ends, or the controller starts anew; the time of a lockout is over; or
-- something that has no business with it.
pub data Signal : Type 0 where
  asks relocks expires nothing : Signal
  presents : Bool → Signal

-- A key behind a seed. The failure that reaches the limit starts a lockout.
abbrev pub judge : ℕ → ℕ → Bool → Access
judge limit failures true = record { status = unlocked; failures = 0 }
judge limit failures false =
    if leb limit (suc failures)
    then record { status = brute_force_lockout; failures = suc failures }
    else record { status = locked; failures = suc failures }

-- What each signal makes of each status. A lockout is left by its expiry alone, access is opened by
-- a key that fits and behind a seed alone, and a start or a change of session keeps the failures.
abbrev pub react : ℕ → SecurityStatus → ℕ → Signal → Access
react limit status failures nothing = record { status = status; failures = failures }
react limit status failures expires = record { status = locked; failures = 0 }
react limit brute_force_lockout failures _ = record {
  status = brute_force_lockout;
  failures = failures;
}
react limit locked failures asks = record { status = seed_requested; failures = failures }
react limit seed_requested failures asks = record { status = seed_requested; failures = failures }
react limit unlocked failures asks = record { status = unlocked; failures = failures }
react limit seed_requested failures (presents fits) = judge limit failures fits
react limit status failures (presents fits) = record { status = status; failures = failures }
react limit _ failures relocks = record { status = locked; failures = failures }

-- The automaton behind a series of signals.
unfoldable pub follow : ℕ → Access → List Signal → Access
follow limit a [] = a
follow limit a (x ∷ xs) = follow limit (react limit a.status a.failures x) xs

module _ {W : Type 0} (c : Config) (os : Os W) (app : App W) where
  -- The signal of a request, by its sub-function and its length, and by the application's verifier.
  abbrev pub request_signal : W → Security → Buffer → ℕ → Signal
  request_signal w s req len =
      if (len == 2) && (req 1 == 0x01 || req 1 == 0x03)
      then asks
      else if (len == 2 + c.seed_size) && (req 1 == 0x02 || req 1 == 0x04)
      then presents
          (ok (app.verify_key_krypto w (req 1 - 1) s.generated_seed (local_key c os app w req)).1)
      else nothing

  pub handle_request-react :
      IsConfig c
      → (w : W) (s : Security) (req : Buffer) (len : ℕ) (tx : Buffer) → IsCounting c s
      → access (handle_request c os app w s req len tx).0
        ≡ react c.max_failed_attempts s.status s.failed_attempts_counter
            (request_signal w s req len)
  unfolding handle_request request_seed send_key grant count_failure generate_seed
  handle_request-react v w s req len tx k = ground arith
