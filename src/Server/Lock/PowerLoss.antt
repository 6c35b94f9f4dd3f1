-- ===== src/Server/Lock/PowerLoss.antt =====
-- src/uds_security.c: the power is lost between the writes by which a wrong key is counted.
use zephyr_uds.Base.{
  ℕ, zero, suc, ◌+◌, ◌≡◌, ◌≢◌, Bool, true, false, ◌&&◌, List, [], ◌∷◌, take, take-nil, Bool-cases,
  inl, inr, leb, ltb, ◌==◌, if◌then◌else◌, Buffer, u8, arith,
}
use zephyr_uds.Types.{locked, brute_force_lockout}
use zephyr_uds.Platform.{Config, IsConfig, Os, App, security_fs, returned, read_byte}
use zephyr_uds.Security
use zephyr_uds.Security.{Security, is_locked_out, counter_id, lockout_state_id, count_failure}
use zephyr_uds.Security.Guessing.{IsCounting}
use zephyr_uds.Security.Persistence
use zephyr_uds.Security.Persistence.{NvsLaws, IsPersisted}
use zephyr_uds.Server.Lock.Reboot.{Ready}

module _ {W : Type 0} (c : Config) (os : Os W) (app : App W) where
  -- The writes that count a wrong key, in their order: an id and a byte each.
  abbrev pub failure_writes : Security → List (ℕ × ℕ)
  failure_writes s =
      let attempts = u8 (s.failed_attempts_counter + 1) in
      (counter_id, attempts)
      ∷ (if leb c.max_failed_attempts attempts then (lockout_state_id, 1) ∷ [] else [])

  abbrev pub written : W → List (ℕ × ℕ) → W
  written w [] = w
  written w ((id, byte) ∷ rest) = written (os.nvs_write w security_fs id (byte ∷ [])) rest

  -- What the module takes up at a start.
  abbrev pub started : W → Security
  started w = (Security.init c os w (Security.power_on c)).1

  -- What it takes up, by the two stored bytes.
  pub started_from :
      NvsLaws c os app
      → Ready c os app
      → (w : W) (count : ℕ) (out : Bool)
      → let stored_lockout = os.nvs_read w security_fs lockout_state_id 1 in
        read_byte (os.nvs_read w security_fs counter_id 1) 0 ≡ count
        → (ltb 0 (returned stored_lockout) && read_byte stored_lockout 0 == 1) ≡ out
        → ((started w).failed_attempts_counter ≡ (if out then u8 c.max_failed_attempts else count))
          × ((started w).status ≡ (if out then brute_force_lockout else locked))
  unfolding Security.init Security.restore Security.power_on
  started_from nvs up w count out counter lockout =
      let (sectors, sized) = up.sized w in
      ground (
        arith,
        up.storage w,
        up.mounted w,
        nvs.read_mount w counter_id,
        nvs.read_mount w lockout_state_id,
      )

  -- A wrong key is counted by at most two writes, which are all that it does to the world. If the
  -- power is lost behind any number of them, the controller starts with the failed key counted, but
  -- for a loss before the first write, and with no fewer failed keys than before in any case; and
  -- it starts in the lockout if the key was the last one within the limit and both writes were
  -- done. After the first write alone there is no lockout, with the counter at the limit. The
  -- module was counting and not locked out, and the stored bytes agreed with the state; NVS keeps
  -- its laws, the configuration is valid and the platform comes up.
  pub power_loss_in_failure :
      NvsLaws c os app
      → IsConfig c
      → Ready c os app
      → (w : W) (s : Security) (req tx : Buffer) (done : ℕ) → IsCounting c s
      → IsPersisted c os app w s
      → s.status ≢ brute_force_lockout
      → let writes = failure_writes s in
        let s' = started (written w (take done writes)) in
        let last = leb c.max_failed_attempts (s.failed_attempts_counter + 1) in
        ((count_failure c os app w s req tx).1.world ≡ written w writes)
        × (s'.failed_attempts_counter
            ≡ (if done == 0 then s.failed_attempts_counter else s.failed_attempts_counter + 1))
        × (s'.status ≡ (if leb 2 done && last then brute_force_lockout else locked))
  unfolding count_failure
  power_loss_in_failure nvs v up w s req tx zero k p free =
      let (count, status) =
        started_from nvs up w s.failed_attempts_counter (is_locked_out s.status) p.counter
          p.lockout in
      (ground arith, ground (arith, count), ground (arith, status))
  power_loss_in_failure nvs v up w s req tx (suc zero) k p free =
      let attempts = u8 (s.failed_attempts_counter + 1) in
      let (counted, rest) = Persistence.write_counter c os app nvs w attempts in
      let (count, status) =
        started_from nvs up (os.nvs_write w security_fs counter_id (attempts ∷ [])) attempts false
          (ground arith) (ground (arith, p.lockout)) in
      (ground arith, ground (arith, count), ground (arith, status))
  power_loss_in_failure nvs v up w s req tx (suc (suc n)) k p free =
      let attempts = u8 (s.failed_attempts_counter + 1) in
      let w' = os.nvs_write w security_fs counter_id (attempts ∷ []) in
      let w'' = os.nvs_write w' security_fs lockout_state_id (1 ∷ []) in
      let (counted, rest) = Persistence.write_counter c os app nvs w attempts in
      let (flagged, rest') = Persistence.write_lockout c os app nvs w' 1 in
      let exact : attempts ≡ s.failed_attempts_counter + 1 = ground arith in
      let (count, status) =
        started_from nvs up w' attempts false (ground arith) (ground (arith, p.lockout)) in
      let (count', status') = started_from nvs up w'' attempts true (ground arith) (ground arith) in
      elim (Bool-cases (leb c.max_failed_attempts attempts)) [
        | inl last ↦
            rw (last, take-nil {A = ℕ × ℕ} n)
              (ground arith, ground (arith, count'), ground (arith, status'))
        | inr more ↦ rw more (ground arith, ground (arith, count), ground (arith, status))
      ]
