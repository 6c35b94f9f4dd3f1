-- ===== src/Server/Lock/PowerCuts.antt =====
-- src/uds_security.c: the power is lost between the writes that end a lockout, and between those
-- that count a wrong key, again and again.
use zephyr_uds.Base.{
  ℕ, zero, suc, ◌≡◌, refl, Bool, false, true, ◌&&◌, List, [], ◌∷◌, take, take-nil, leb, ltb, ◌==◌,
  if◌then◌else◌, Buffer, holding, u8, arith,
}
use zephyr_uds.Types.{locked, brute_force_lockout}
use zephyr_uds.Platform.{Config, Os, App, security_fs, returned, read_byte, ok}
use zephyr_uds.Security
use zephyr_uds.Security.{
  Security, is_locked_out, counter_id, lockout_state_id, lockout_timer_expiry, handle_request,
  grant, local_key,
}
use zephyr_uds.Security.Persistence
use zephyr_uds.Security.Persistence.{NvsLaws, IsPersisted}
use zephyr_uds.Server.Lock.Reboot.{Ready}
use zephyr_uds.Server.Lock.PowerLoss.{failure_writes, written, started, started_from}

module _ {W : Type 0} (c : Config) (os : Os W) (app : App W) where
  -- The writes at the end of a lockout, in their order.
  abbrev pub expiry_writes : List (ℕ × ℕ)
  expiry_writes = (counter_id, 0) ∷ (lockout_state_id, 0) ∷ []

  -- The lockout ends by two writes, which are all that its end does to the world. If the power is
  -- lost behind any number of them, the controller starts in the lockout, with the counter at the
  -- limit, until both are done, and behind them locked with none counted. The state was a lockout
  -- and the stored bytes agreed with it; NVS keeps its laws, and the platform comes up.
  pub power_loss_in_expiry :
      NvsLaws c os app
      → Ready c os app
      → (w : W) (s : Security) (done : ℕ) → IsPersisted c os app w s
      → s.status ≡ brute_force_lockout
      → let s' = started c os app (written c os app w (take done expiry_writes)) in
        ((lockout_timer_expiry c os w s).0 ≡ written c os app w expiry_writes)
        × (s'.status ≡ (if leb 2 done then locked else brute_force_lockout))
        × (s'.failed_attempts_counter ≡ (if leb 2 done then 0 else u8 c.max_failed_attempts))
  unfolding lockout_timer_expiry
  power_loss_in_expiry nvs up w s zero p out =
      let (count, status) =
        started_from c os app nvs up w s.failed_attempts_counter true p.counter
          (ground (arith, p.lockout)) in
      (refl, ground (arith, status), ground (arith, count))
  power_loss_in_expiry nvs up w s (suc zero) p out =
      let w' = os.nvs_write w security_fs counter_id (0 ∷ []) in
      let (counted, rest) = Persistence.write_counter c os app nvs w 0 in
      let (count, status) =
        started_from c os app nvs up w' 0 true (ground arith) (ground (arith, p.lockout)) in
      (refl, ground (arith, status), ground (arith, count))
  power_loss_in_expiry nvs up w s (suc (suc n)) p out =
      let w' = os.nvs_write w security_fs counter_id (0 ∷ []) in
      let w'' = os.nvs_write w' security_fs lockout_state_id (0 ∷ []) in
      let (counted, rest) = Persistence.write_counter c os app nvs w 0 in
      let (flagged, rest') = Persistence.write_lockout c os app nvs w' 0 in
      let (count, status) =
        started_from c os app nvs up w'' 0 false (ground arith) (ground arith) in
      rw (take-nil {A = ℕ × ℕ} n) (refl, ground (arith, status), ground (arith, count))

module _ {W : Type 0} (c : Config) (os : Os W) (app : App W) where
  abbrev pub seed_request : Buffer
  seed_request = holding (0x27 ∷ 0x01 ∷ [])

  abbrev pub key_request : List ℕ → Buffer
  key_request key = holding (0x27 ∷ 0x02 ∷ key)

  -- A seed is asked for.
  abbrev pub asked : W → Security → Buffer → W × Security
  asked w s tx = let (s', r) = handle_request c os app w s seed_request 2 tx in (r.world, s')

  -- The verifier's answer to a key.
  abbrev pub judged : W → Security → List ℕ → W × Bool
  judged w s key =
      let (w', access) =
        app.verify_key_krypto w 1 s.generated_seed (local_key c os app w (key_request key)) in
      (w', ok access)

  -- A seed is asked for and a wrong key is sent, the power is lost behind the first write by which
  -- the key is counted, and the controller starts.
  abbrev pub cut_round : W → Security → Buffer → List ℕ → W × Security
  cut_round w s tx key =
      let (w1, s1) = asked w s tx in
      let left = written c os app (judged w1 s1 key).0 (take 1 (failure_writes c os app s1)) in
      ((Security.init c os left (Security.power_on c)).0, started c os app left)

  pub cut_rounds : W → Security → Buffer → List (List ℕ) → W × Security
  cut_rounds w s tx [] = (w, s)
  cut_rounds w s tx (key ∷ keys) = let (w', s') = cut_round w s tx key in cut_rounds w' s' tx keys

  -- No lockout is stored.
  abbrev pub NoneStored : W → Type 0
  NoneStored w =
      let stored_lockout = os.nvs_read w security_fs lockout_state_id 1 in
      (ltb 0 (returned stored_lockout) && read_byte stored_lockout 0 == 1) ≡ false
