-- ===== src/Security/Persistence.antt =====
-- src/uds_security.c: what the module's NVS file system remembers across a reboot.
use zephyr_uds.Base.{
  ℕ, suc, ◌+◌, ◌-◌, u8, ◌⊎◌, ◌≡◌, ◌≢◌, true, ◌&&◌, List, [], ◌∷◌, ltb, ◌==◌, some, Buffer, arith,
  if◌then◌else◌,
}
use zephyr_uds.Types.{brute_force_lockout, success, locked}
use zephyr_uds.Platform.{Config, IsConfig, Os, App, security_fs, item, returned, read_byte}
use zephyr_uds.Security.{
  Security, counter_id, lockout_state_id, is_locked_out, sector_count, power_on,
  lockout_timer_expiry, generate_seed, request_seed, local_key, grant, count_failure, send_key,
  restore, init, handle_request,
}
use zephyr_uds.Security.Guessing.{IsCounting}

module _ {W : Type 0} (c : Config) (os : Os W) (app : App W) where
  -- NVS gives back the byte that was written last, and a write under one id leaves the other. The
  -- entropy source, the mount and the application's verifier leave the file system alone.
  pub record NvsLaws : Type 0 where
    pub read_written :
        (w : W) (id x : ℕ)
        → os.nvs_read (os.nvs_write w security_fs id (x ∷ [])) security_fs id 1 ≡ item 1 (x ∷ [])
    pub read_other :
        (w : W) (id other x : ℕ)
        → id ≢ other
        → os.nvs_read (os.nvs_write w security_fs id (x ∷ [])) security_fs other 1
          ≡ os.nvs_read w security_fs other 1
    pub read_entropy :
        (w : W) (n id : ℕ)
        → os.nvs_read (os.get_entropy w n).0 security_fs id 1 ≡ os.nvs_read w security_fs id 1
    pub read_mount :
        (w : W) (id : ℕ)
        → os.nvs_read (os.nvs_mount w).0 security_fs id 1 ≡ os.nvs_read w security_fs id 1
    pub read_verify :
        (w : W) (level : ℕ) (seed key : List ℕ) (id : ℕ)
        → os.nvs_read (app.verify_key_krypto w level seed key).0 security_fs id 1
          ≡ os.nvs_read w security_fs id 1

  -- The two stored bytes say what the state says: the counter, and whether there is a lockout.
  pub record IsPersisted (w : W) (s : Security) : Type 0 where
    pub counter : read_byte (os.nvs_read w security_fs counter_id 1) 0 ≡ s.failed_attempts_counter
    pub lockout :
        let stored_lockout = os.nvs_read w security_fs lockout_state_id 1 in
        (ltb 0 (returned stored_lockout) && read_byte stored_lockout 0 == 1)
        ≡ is_locked_out s.status

  generate_seed-IsPersisted :
      NvsLaws
      → (w : W) (s : Security) → s.status ≢ brute_force_lockout
      → IsPersisted w s
      → let (w', s') = generate_seed c os w s in IsPersisted w' s'
  unfolding generate_seed
  generate_seed-IsPersisted laws w s h p = ground (
    arith,
    laws.read_entropy w c.seed_size counter_id,
    laws.read_entropy w c.seed_size lockout_state_id,
  )

  -- What one write leaves, of the two ids.
  pub write_counter :
      NvsLaws
      → (w : W) (x : ℕ)
      → let w' = os.nvs_write w security_fs counter_id (x ∷ []) in
        (os.nvs_read w' security_fs counter_id 1 ≡ item 1 (x ∷ []))
        × (os.nvs_read w' security_fs lockout_state_id 1
            ≡ os.nvs_read w security_fs lockout_state_id 1)
  write_counter laws w x = (
    laws.read_written w counter_id x,
    laws.read_other w counter_id lockout_state_id x (omega arith),
  )

  pub write_lockout :
      NvsLaws
      → (w : W) (x : ℕ)
      → let w' = os.nvs_write w security_fs lockout_state_id (x ∷ []) in
        (os.nvs_read w' security_fs lockout_state_id 1 ≡ item 1 (x ∷ []))
        × (os.nvs_read w' security_fs counter_id 1 ≡ os.nvs_read w security_fs counter_id 1)
  write_lockout laws w x = (
    laws.read_written w lockout_state_id x,
    laws.read_other w lockout_state_id counter_id x (omega arith),
  )

  grant-IsPersisted :
      NvsLaws
      → (w : W) (s : Security) (req tx : Buffer) → s.status ≢ brute_force_lockout
      → IsPersisted w s
      → let (s', r) = grant c os app w s req tx in IsPersisted r.world s'
  unfolding grant
  grant-IsPersisted laws w s req tx h p = ground (arith, write_counter laws w 0)

  count_failure-IsPersisted :
      NvsLaws
      → (w : W) (s : Security) (req tx : Buffer) → s.status ≢ brute_force_lockout
      → IsPersisted w s
      → let (s', r) = count_failure c os app w s req tx in IsPersisted r.world s'
  unfolding count_failure
  count_failure-IsPersisted laws w s req tx h p =
      let attempts = u8 (s.failed_attempts_counter + 1) in
      let w' = os.nvs_write w security_fs counter_id (attempts ∷ []) in
      ground (arith, write_counter laws w attempts, write_lockout laws w' 1)

  verify-IsPersisted :
      NvsLaws
      → (w : W) (s : Security) (level : ℕ) (key : List ℕ) → IsPersisted w s
      → IsPersisted (app.verify_key_krypto w level s.generated_seed key).0 s
  verify-IsPersisted laws w s level key p = ground (
    arith,
    laws.read_verify w level s.generated_seed key counter_id,
    laws.read_verify w level s.generated_seed key lockout_state_id,
  )

  -- Where NVS keeps its laws, stored bytes that agree with the state agree with it behind any
  -- request too.
  pub handle_request-IsPersisted :
      NvsLaws
      → (w : W) (s : Security) (req : Buffer) (len : ℕ) (tx : Buffer) → IsPersisted w s
      → let (s', r) = handle_request c os app w s req len tx in IsPersisted r.world s'
  unfolding handle_request request_seed send_key
  handle_request-IsPersisted laws w s req len tx p =
      let key = local_key c os app w req in
      let w' = (app.verify_key_krypto w (req 1 - 1) s.generated_seed key).0 in
      ground (
        arith,
        generate_seed-IsPersisted laws w s,
        verify-IsPersisted laws w s (req 1 - 1) key,
        grant-IsPersisted laws w' s req tx,
        count_failure-IsPersisted laws w' s req tx,
      )

  -- The end of the lockout does too.
  pub lockout_timer_expiry-IsPersisted :
      NvsLaws
      → (w : W) (s : Security) → let (w', s') = lockout_timer_expiry c os w s in IsPersisted w' s'
  unfolding lockout_timer_expiry
  lockout_timer_expiry-IsPersisted laws w s = ground (
    arith,
    write_counter laws w 0,
    write_lockout laws (os.nvs_write w security_fs counter_id (0 ∷ [])) 0,
  )

  -- After a reboot the module is locked out if it was before, with the counter at the limit, and is
  -- locked with the counter of failed keys that it had if it was not: neither a reset nor a power
  -- cycle gives a tester new guesses. The configuration is valid, the storage is ready and mounts,
  -- NVS keeps its laws, the stored bytes agreed with the state, and the module was counting.
  pub reboot_keeps_lockout :
      NvsLaws
      → IsConfig c
      → (w : W) (s : Security) (sectors : ℕ) → os.storage_ready w ≡ true
      → sector_count c os w ≡ some (suc sectors)
      → (os.nvs_mount w).1 ≡ success
      → IsCounting c s
      → IsPersisted w s
      → let (w', s', calls) = init c os w (power_on c) in
        (is_locked_out s'.status ≡ is_locked_out s.status)
        × ((s'.status ≡ brute_force_lockout) ⊎ (s'.status ≡ locked))
        × (s'.failed_attempts_counter
            ≡ (if is_locked_out s.status then c.max_failed_attempts else s.failed_attempts_counter))
  unfolding init restore power_on
  reboot_keeps_lockout laws v w s sectors ready sized mounted k p =
      ground (arith, laws.read_mount w counter_id, laws.read_mount w lockout_state_id)
