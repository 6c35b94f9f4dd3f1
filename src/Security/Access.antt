-- ===== src/Security/Access.antt =====
-- src/uds_security.c: who gets in, and who does not.
use zephyr_uds.Base.{ℕ, ◌+◌, ◌-◌, ◌≡◌, ◌↔◌, ◌⊎◌, Buffer, arith}
use zephyr_uds.Types.{seed_requested, unlocked, success}
use zephyr_uds.Platform.{Config, Os, App}
use zephyr_uds.Security.{
  Security, local_key, generate_seed, request_seed, grant, count_failure, send_key, handle_request,
}

module _ {W : Type 0} (c : Config) (os : Os W) (app : App W) where
  -- A request that carries a key in the right order, which the application accepts for the seed
  -- that was generated.
  pub record KeyAccepted (w : W) (s : Security) (req : Buffer) (len : ℕ) : Type 0 where
    pub ordered : s.status ≡ seed_requested
    pub sub_function : (req 1 ≡ 0x02) ⊎ (req 1 ≡ 0x04)
    pub whole : len ≡ 2 + c.seed_size
    pub verified :
        (app.verify_key_krypto w (req 1 - 1) s.generated_seed (local_key c os app w req)).1
        ≡ success

  -- Behind any SecurityAccess request, access is unlocked exactly when it was before or the request
  -- carried, after a seed request, a key of the right length that the application's verifier
  -- accepts for the generated seed.
  pub unlocked_iff_accepted :
      (w : W) (s : Security) (req : Buffer) (len : ℕ) (tx : Buffer)
      → ((handle_request c os app w s req len tx).0.status ≡ unlocked)
        ↔ ((s.status ≡ unlocked) ⊎ KeyAccepted w s req len)
  unfolding handle_request request_seed send_key grant count_failure generate_seed
  unlocked_iff_accepted w s req len tx = (ground arith, ground arith)
