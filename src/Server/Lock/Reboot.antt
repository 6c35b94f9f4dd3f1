-- ===== src/Server/Lock/Reboot.antt =====
-- src/uds_security.c within src/uds_server.c: what is stored in NVS over any history, restarts of
-- the controller included.
use zephyr_uds.Base.{
  sym, ◌∙◌, u8, ltb, ◌&&◌, length-replicate, ℕ, suc, ◌≤◌, ◌≡◌, ◌≢◌, refl, true, Bool-cases, inl,
  inr, some, ◌∷◌, ◌==◌, length, Buffer, copy, arith,
}
use zephyr_uds.Types.{Addressing, physical, functional, success, lockout_timer, timer_init}
use zephyr_uds.Platform.{security_fs, returned, read_byte, Config, IsConfig, Os, App}
use zephyr_uds.Security
use zephyr_uds.Security.{is_locked_out, Security, counter_id, lockout_state_id, sector_count}
use zephyr_uds.Security.Guessing.{IsCounting}
use zephyr_uds.Security.Persistence
use zephyr_uds.Security.Persistence.{NvsLaws, IsPersisted}
use zephyr_uds.Session
use zephyr_uds.ClearDtc
use zephyr_uds.Routine
use zephyr_uds.Periodic
use zephyr_uds.Server.State.{Server}
use zephyr_uds.Server.Services
use zephyr_uds.Server.Process.{
  Service, security_access, session_control, service, serve, process_request,
}
use zephyr_uds.Server.Machine.{
  Event, received, s3_expires, lockout_expires, clear_dtc_runs, routine_runs, periodic_runs, step,
  receive,
}
use zephyr_uds.Server.Quiet.{clear_worker-Same, routine_worker-Same, thread_round-Same}
use zephyr_uds.Server.Lock.Isolation.{stored_items, Keeps, Isolated, serve-Keeps}

module _ {W : Type 0} (c : Config) (os : Os W) (app : App W) where
  pub keep-IsPersisted :
      (w w' : W) (s : Security)
      → Keeps os w w'
      → IsPersisted c os app w s
      → IsPersisted c os app w' s
  keep-IsPersisted w w' s same p = ground (arith, same counter_id, same lockout_state_id)

  pub serve-security :
      (v : Service) (a : Addressing) (s : Server W) (req : Buffer) (len : ℕ)
      → v ≢ security_access
      → v ≢ session_control
      → (serve c os app v a s req len).0.security ≡ s.security
  unfolding serve Services.ecu_reset Services.clear_dtc Services.read_dtc Services.write_did
      Services.periodic Services.define_dynamic_did Services.io_control Services.routine_control
      Services.request_download Services.transfer_data Services.transfer_exit
      Services.response_on_event Services.tester_present Services.read_did Services.answer_read
  serve-security session_control a s req len h k = absurd (k refl)
  serve-security security_access a s req len h k = absurd (h refl)
  serve-security _ a s req len h k = ground arith

  serve-IsPersisted :
      NvsLaws c os app
      → Isolated os app
      → (v : Service) (a : Addressing) (s : Server W) (req : Buffer) (len : ℕ)
      → IsPersisted c os app s.world s.security
      → let s' = (serve c os app v a s req len).0 in IsPersisted c os app s'.world s'.security
  serve-IsPersisted nvs laws session_control a s req len p =
      unfold serve Services.session_control Security.reset_lock in ground arith
  serve-IsPersisted nvs laws security_access physical s req len p =
      unfold serve Services.security_access in
      Persistence.handle_request-IsPersisted c os app nvs s.world s.security req len s.tx_buf p
  serve-IsPersisted nvs laws security_access functional s req len p = unfold serve in p
  serve-IsPersisted nvs laws v a s req len p =
      let s' = (serve c os app v a s req len).0 in
      rw (serve-security v a s req len (λ e. cc) (λ e. cc)) (
        keep-IsPersisted s.world s'.world s.security
          (serve-Keeps c os app laws v a s req len (λ e. cc)) p)

  pub step-IsPersisted :
      NvsLaws c os app
      → Isolated os app
      → (s : Server W) (e : Event) → IsPersisted c os app s.world s.security
      → let s' = (step c os app s e).0 in IsPersisted c os app s'.world s'.security
  unfolding step receive process_request
  step-IsPersisted nvs laws s (received a bytes) p =
      let req = copy s.rx_buf 0 bytes in
      let addressed = record s { rx_buf = req; current_msg_addressing = a } in
      let served = serve-IsPersisted nvs laws (service (req 0)) a addressed req (length bytes) p in
      elim (Bool-cases (length bytes == 0)) [
        | inl nothing ↦ ground arith
        | inr some_bytes ↦ rw some_bytes served
      ]
  step-IsPersisted nvs laws s s3_expires p =
      unfold Session.s3_timer_expiry Security.reset_lock in ground arith
  step-IsPersisted nvs laws s lockout_expires p =
      Persistence.lockout_timer_expiry-IsPersisted c os app nvs s.world s.security
  step-IsPersisted nvs laws s clear_dtc_runs p =
      keep-IsPersisted s.world (ClearDtc.worker app s.world s.clear_dtc).0 s.security
        (clear_worker-Same (stored_items os) os app laws.quiet s.world s.clear_dtc) p
  step-IsPersisted nvs laws s routine_runs p =
      keep-IsPersisted s.world (Routine.worker app s.world s.routine).0 s.security
        (routine_worker-Same (stored_items os) os app laws.quiet s.world s.routine) p
  step-IsPersisted nvs laws s periodic_runs p =
      keep-IsPersisted s.world (Periodic.thread_round app s.world s.periodic).0 s.security
        (thread_round-Same (stored_items os) os app laws.quiet s.world s.periodic) p
  step-IsPersisted nvs laws s _ p = p

  -- The platform comes up: the CAN controller, and the storage with a partition that mounts.
  pub record Ready : Type 0 where
    pub can : (w : W) → os.can_ready w ≡ true
    pub storage : (w : W) → os.storage_ready w ≡ true
    pub sized : (w : W) → (sectors : ℕ) × (sector_count c os w ≡ some (suc sectors))
    pub mounted : (w : W) → (os.nvs_mount w).1 ≡ success

  pub init_mounted :
      Ready
      → (w : W) (s : Security)
      → let (s', started) = Security.restore c os (os.nvs_mount w).0 s in
        Security.init c os w s ≡ ((os.nvs_mount w).0, s', timer_init lockout_timer ∷ started)
  unfolding Security.init
  init_mounted up w s =
      let (sectors, sized) = up.sized w in ground (arith, up.storage w, up.mounted w)

  restore-IsSound :
      IsConfig c
      → (w : W) (s : Security) → IsCounting c s
      → IsPersisted c os app w s
      → let s' = (Security.restore c os w (Security.power_on c)).0 in
        IsCounting c s'
        × IsPersisted c os app w s'
        × (s.failed_attempts_counter ≤ s'.failed_attempts_counter)
  unfolding Security.restore Security.power_on
  restore-IsSound v w s k p =
      let stored_lockout = os.nvs_read w security_fs lockout_state_id 1 in
      let again = ltb 0 (returned stored_lockout) && read_byte stored_lockout 0 == 1 in
      elim (Bool-cases again) [
        | inl out ↦
            let held : is_locked_out s.status ≡ true = sym p.lockout ∙ out in
            let full : s.failed_attempts_counter ≡ u8 c.max_failed_attempts = ground arith in
            (
              ground (arith, length-replicate {A = ℕ} c.seed_size 0),
              record { counter = rw out (p.counter ∙ full); lockout = rw out refl },
              ground arith,
            )
        | inr free ↦
            (ground (arith, length-replicate {A = ℕ} c.seed_size 0), ground arith, ground arith)
      ]

  -- The start leaves the module sound, with no fewer failed keys than before.
  pub security_init-IsSound :
      NvsLaws c os app
      → Ready
      → IsConfig c
      → (w : W) (s : Security) → IsCounting c s
      → IsPersisted c os app w s
      → let (w', s', calls) = Security.init c os w (Security.power_on c) in
        IsCounting c s'
        × IsPersisted c os app w' s'
        × (s.failed_attempts_counter ≤ s'.failed_attempts_counter)
  security_init-IsSound nvs up v w s k p =
      let mounted = (os.nvs_mount w).0 in
      rw (init_mounted up w (Security.power_on c))
        (restore-IsSound v mounted s k (keep-IsPersisted w mounted s (λ id. nvs.read_mount w id) p))
