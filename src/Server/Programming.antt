-- ===== src/Server/Programming.antt =====
-- src/uds_server.c as a whole makes the moves of a device that is programmed.
pub mod Steps
pub mod Life
pub mod Image
pub mod Held
pub mod Acknowledged
use mathlib.Core.Path.{fun_ext}
use zephyr_uds.Base.{
  false, ap, ℕ, ◌+◌, ◌-◌, ◌≡◌, ◌≢◌, ◌⊎◌, inl, inr, refl, ◌∙◌, true, Bool-cases, List, [], ◌∷◌, ◌==◌,
  length, u8, slice, Buffer, copy, arith,
}
use zephyr_uds.Types.{
  Addressing, physical, functional, SessionType, default_session, SecurityStatus, unlocked,
  seed_requested,
}
use zephyr_uds.Platform.{Config, Os, App, security_fs}
use zephyr_uds.Security
use zephyr_uds.Security.{Security, counter_id, lockout_state_id, local_key}
use zephyr_uds.Session
use zephyr_uds.Flash
use zephyr_uds.Flash.Gate.{download_address, download_size}
use zephyr_uds.Flash.Programming.{
  Device, Act, download, block, leave, other, Opens, Program, keep, settle, WritesFlash,
}
use zephyr_uds.Flash.Moves.{request_download-Program, transfer_data-Program, transfer_exit-Program}
use zephyr_uds.Server.State.{Server}
use zephyr_uds.Server.Services
use zephyr_uds.Server.Process.{
  Service, session_control, security_access, request_download, transfer_data, transfer_exit,
  service, serve, process_request,
}
use zephyr_uds.Server.Machine.{
  Event, received, s3_expires, lockout_expires, clear_dtc_runs, routine_runs, periodic_runs, Moment,
  happens, restarts, power_on, restart, step, receive, moment, live,
}
use zephyr_uds.Server.Machine
use zephyr_uds.Server.Quiet.{
  Same, Quiet, serve-Same, clear_worker-Same, routine_worker-Same, thread_round-Same,
}
use zephyr_uds.Server.Lock.Reboot.{serve-security}

module _ {W : Type 0} (c : Config) (os : Os W) (app : App W) (memory : W → Buffer) where
  -- `memory` is a flash that the hooks of a download write as they are told, and that all other
  -- hooks, the entropy source and the module's own storage leave alone.
  pub record IsTarget : Type 0 where
    pub quiet : Quiet memory os app
    pub flash : WritesFlash app memory
    pub mount : (w : W) → Same memory w (os.nvs_mount w).0
    pub nvs_write : (w : W) (id x : ℕ) → Same memory w (os.nvs_write w security_fs id (x ∷ []))
    pub entropy : (w : W) (n : ℕ) → Same memory w (os.get_entropy w n).0
    pub verify :
        (w : W) (level : ℕ) (seed key : List ℕ)
        → Same memory w (app.verify_key_krypto w level seed key).0

  abbrev pub device : Server W → Device
  device s = record {
    session = s.session;
    access = s.security.status;
    flash = s.flash;
    memory = memory s.world;
  }

  -- The act of a message, by its service and its bytes, and of each moment of a life. The services
  -- of a download are served by the physical address alone.
  abbrev pub message_act : Service → Addressing → Buffer → ℕ → Act
  message_act request_download physical req len =
      download (download_address c app req) (download_size c app req)
  message_act transfer_data physical req len = block (req 1) (slice 2 (len - 2) req)
  message_act transfer_exit physical req len = leave
  message_act _ a req len = other

  abbrev pub event_act : Server W → Event → Act
  event_act s (received a []) = other
  event_act s (received a (b ∷ bs)) =
      message_act (service b) a (copy s.rx_buf 0 (b ∷ bs)) (length (b ∷ bs))
  event_act s _ = other

  abbrev pub Moves : Act → Server W → Server W → Type 0
  Moves act s s' = Program act (device s) (device s')

  settled :
      (s s' : Server W)
      → s'.flash ≡ s.flash
      → Same memory s.world s'.world
      → Opens (device s) (device s')
      → Moves other s s'
  settled s s' same kept opens = settle same (fun_ext kept) opens

  unmoved :
      (act : Act) (s s' : Server W)
      → s'.flash ≡ s.flash
      → Same memory s.world s'.world
      → s'.session ≡ s.session
      → s'.security ≡ s.security
      → Moves act s s'
  unmoved act s s' same kept session security =
      keep same (fun_ext kept) session (ap (λ x. x.status) security)

  send_key-Same :
      IsTarget
      → (w : W) (s : Security) (req : Buffer) (len : ℕ) (tx : Buffer)
      → Same memory w (Security.send_key c os app w s req len tx).1.world
  unfolding Security.send_key Security.grant Security.count_failure
  send_key-Same laws w s req len tx i =
      let (w', access) =
        app.verify_key_krypto w (req 1 - 1) s.generated_seed (local_key c os app w req) in
      let attempts = u8 (s.failed_attempts_counter + 1) in
      let w'' = os.nvs_write w' security_fs counter_id (attempts ∷ []) in
      ground (
        arith,
        laws.verify w (req 1 - 1) s.generated_seed (local_key c os app w req) i,
        laws.nvs_write w' counter_id 0 i,
        laws.nvs_write w' counter_id attempts i,
        laws.nvs_write w'' lockout_state_id 1 i,
      )

  pub handle_request-Same :
      IsTarget
      → (w : W) (s : Security) (req : Buffer) (len : ℕ) (tx : Buffer)
      → Same memory w (Security.handle_request c os app w s req len tx).1.world
  unfolding Security.handle_request Security.request_seed Security.generate_seed
  handle_request-Same laws w s req len tx i =
      ground (arith, laws.entropy w c.seed_size i, send_key-Same laws w s req len tx i)

  handle_request-opens :
      (w : W) (s : Security) (req : Buffer) (len : ℕ) (tx : Buffer)
      → (Security.handle_request c os app w s req len tx).0.status ≡ unlocked
      → (s.status ≡ unlocked) ⊎ (s.status ≡ seed_requested)
  unfolding Security.handle_request Security.request_seed Security.generate_seed Security.send_key
      Security.grant Security.count_failure
  handle_request-opens w s req len tx e = ground arith

  serve-stays :
      (v : Service) (a : Addressing) (s : Server W) (req : Buffer) (len : ℕ)
      → v ≢ session_control
      → (serve c os app v a s req len).0.session ≡ s.session
  unfolding serve Services.security_access Services.ecu_reset Services.clear_dtc Services.read_dtc
      Services.write_did Services.periodic Services.define_dynamic_did Services.io_control
      Services.routine_control Services.request_download Services.transfer_data
      Services.transfer_exit Services.response_on_event Services.tester_present Services.read_did
      Services.answer_read
  serve-stays session_control a s req len h = absurd (h refl)
  serve-stays _ a s req len h = ground arith

  pub serve-flash :
      (v : Service) (a : Addressing) (s : Server W) (req : Buffer) (len : ℕ)
      → v ≢ request_download
      → v ≢ transfer_data
      → v ≢ transfer_exit
      → (serve c os app v a s req len).0.flash ≡ s.flash
  unfolding serve Services.session_control Services.security_access Services.ecu_reset
      Services.clear_dtc Services.read_dtc Services.write_did Services.periodic
      Services.define_dynamic_did Services.io_control Services.routine_control
      Services.response_on_event Services.tester_present Services.read_did Services.answer_read
  serve-flash request_download a s req len h k l = absurd (h refl)
  serve-flash transfer_data a s req len h k l = absurd (k refl)
  serve-flash transfer_exit a s req len h k l = absurd (l refl)
  serve-flash Service.io_control physical s req len h k l = ground arith
  serve-flash Service.io_control functional s req len h k l = refl
  serve-flash security_access physical s req len h k l = ground arith
  serve-flash security_access functional s req len h k l = refl
  serve-flash _ a s req len h k l = ground arith

  serve-Moves :
      IsTarget
      → (v : Service) (a : Addressing) (s : Server W) (req : Buffer) (len : ℕ)
      → Moves (message_act v a req len) s (serve c os app v a s req len).0
  serve-Moves laws request_download physical s req len =
      unfold serve Services.request_download in
      request_download-Program app memory s.session s.security.status laws.flash c s.world s.flash
        req len s.tx_buf
  serve-Moves laws transfer_data physical s req len =
      unfold serve Services.transfer_data in
      transfer_data-Program app memory s.session s.security.status laws.flash s.world s.flash req
        len s.tx_buf
  serve-Moves laws transfer_exit physical s req len =
      unfold serve Services.transfer_exit in
      transfer_exit-Program app memory s.session s.security.status s.world s.flash req s.tx_buf
  serve-Moves laws request_download functional s req len = unfold serve in keep refl refl refl refl
  serve-Moves laws transfer_data functional s req len = unfold serve in keep refl refl refl refl
  serve-Moves laws transfer_exit functional s req len = unfold serve in keep refl refl refl refl
  serve-Moves laws security_access functional s req len = unfold serve in keep refl refl refl refl
  serve-Moves laws security_access physical s req len =
      unfold serve Services.security_access in
      settle refl (fun_ext (handle_request-Same laws s.world s.security req len s.tx_buf))
        (λ e. (refl, handle_request-opens s.world s.security req len s.tx_buf e))
  serve-Moves laws session_control a s req len =
      let s' = (serve c os app session_control a s req len).0 in
      settled s s' (serve-flash session_control a s req len (λ e. cc) (λ e. cc) (λ e. cc))
        (serve-Same memory os app c laws.quiet session_control a s req len (λ e. cc) (λ e. cc)
          (λ e. cc))
        (λ e. unfold serve Services.session_control Security.reset_lock in ground arith)
  serve-Moves laws v a s req len =
      let s' = (serve c os app v a s req len).0 in
      unmoved other s s' (serve-flash v a s req len (λ e. cc) (λ e. cc) (λ e. cc))
        (serve-Same memory os app c laws.quiet v a s req len (λ e. cc) (λ e. cc) (λ e. cc))
        (serve-stays v a s req len (λ e. cc))
        (serve-security c os app v a s req len (λ e. cc) (λ e. cc))
