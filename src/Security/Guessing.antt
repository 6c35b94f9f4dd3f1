-- ===== src/Security/Guessing.antt =====
-- src/uds_security.c: how many keys can be tried.
use zephyr_uds.Base.{
  leb, ℕ, ◌+◌, ◌-◌, ◌≤◌, ◌≡◌, Bool, false, ◌&&◌, ◌||◌, List, ◌==◌, if◌then◌else◌, length,
  Option-cases, inl, inr, some, Buffer, arith, length-replicate, suc, zero, refl, ap,
}
use zephyr_uds.Platform.{Config, IsConfig, Os, App, ok}
use zephyr_uds.Security.{
  is_locked_out, Security, generate_seed, request_seed, local_key, grant, count_failure, send_key,
  is_seed_requested, uptime_seed, power_on, handle_request,
}

-- The counter of failed keys stays within the limit, and is at the limit exactly in a lockout; and
-- the seed is a whole one.
pub record IsCounting (c : Config) (s : Security) : Type 0 where
  pub locked_at_limit : is_locked_out s.status ≡ leb c.max_failed_attempts s.failed_attempts_counter
  pub within_limit : s.failed_attempts_counter ≤ c.max_failed_attempts
  pub seed_whole : length s.generated_seed ≡ c.seed_size

length-uptime_seed : (uptime i n : ℕ) → length (uptime_seed uptime i n) ≡ n
unfolding uptime_seed
length-uptime_seed uptime i zero = refl
length-uptime_seed uptime i (suc n) = ap suc (length-uptime_seed uptime (suc i) n)

-- At power-on the module counts.
pub power_on-IsCounting : (c : Config) → IsConfig c → IsCounting c (power_on c)
unfolding power_on
power_on-IsCounting c v = ground (arith, length-replicate {A = ℕ} c.seed_size 0)

module _ {W : Type 0} (c : Config) (os : Os W) (app : App W) where
  -- The request makes the module ask the verifier.
  abbrev pub asks_verifier : Security → Buffer → ℕ → Bool
  asks_verifier s req len =
      is_seed_requested s.status && (len == 2 + c.seed_size && (req 1 == 0x02 || req 1 == 0x04))

  -- entropy_get_entropy fills the whole buffer.
  abbrev pub FillsBuffer : Type 0
  FillsBuffer =
      (w : W) (n : ℕ) (bytes : List ℕ) → (os.get_entropy w n).1 ≡ some bytes → length bytes ≡ n

  pub length-generate_seed :
      FillsBuffer
      → (w : W) (s : Security) → length s.generated_seed ≡ c.seed_size
      → length (generate_seed c os w s).1.generated_seed ≡ c.seed_size
  unfolding generate_seed
  length-generate_seed fills w s h = elim (Option-cases (os.get_entropy w c.seed_size).1) [
    | inl e ↦ ground (
      arith,
      length-replicate {A = ℕ} c.seed_size 0,
      length-uptime_seed (os.uptime_32 w) 0 c.seed_size,
    )
    | inr (bytes, e) ↦ ground (
      arith,
      fills w c.seed_size bytes e,
      length-replicate {A = ℕ} c.seed_size 0,
      length-uptime_seed (os.uptime_32 w) 0 c.seed_size,
    )
  ]

  -- A request keeps the counter of failed keys within its limit, and at it exactly in a lockout,
  -- and the seed whole, in a valid configuration, if the entropy source fills the buffer that it is
  -- given.
  pub handle_request-IsCounting :
      IsConfig c
      → FillsBuffer
      → (w : W) (s : Security) (req : Buffer) (len : ℕ) (tx : Buffer) → IsCounting c s
      → IsCounting c (handle_request c os app w s req len tx).0
  unfolding handle_request request_seed send_key grant count_failure generate_seed
  handle_request-IsCounting v fills w s req len tx k =
      ground (arith, length-generate_seed fills w s k.seed_whole)

  -- One request costs one guess at most, if the verifier accepts no key.
  pub guess_costs :
      IsConfig c
      → ((w : W) (level : ℕ) (seed key : List ℕ)
          → ok (app.verify_key_krypto w level seed key).1 ≡ false)
      → (w : W) (s : Security) (req : Buffer) (len : ℕ) (tx : Buffer) → IsCounting c s
      → (if asks_verifier s req len then 1 else 0) + s.failed_attempts_counter
        ≡ (handle_request c os app w s req len tx).0.failed_attempts_counter
  unfolding handle_request request_seed send_key grant count_failure generate_seed
  guess_costs v none_fits w s req len tx k =
      ground (arith, none_fits w (req 1 - 1) s.generated_seed (local_key c os app w req))
