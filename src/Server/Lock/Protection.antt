-- ===== src/Server/Lock/Protection.antt =====
-- The server as a whole: what it takes to unlock, over any life of the controller.
use zephyr_uds.Base.{
  ℕ, ◌≡◌, ◌⊎◌, inl, inr, refl, true, false, Bool-cases, List, [], ◌∷◌, ◌==◌, length, Buffer, copy,
  arith,
}
use zephyr_uds.Types.{Addressing, physical, functional, unlocked}
use zephyr_uds.Platform.{Config, Os, App}
use zephyr_uds.Security
use zephyr_uds.Security.{Security, is_unlocked}
use zephyr_uds.Security.Access
use zephyr_uds.Security.Access.{KeyAccepted}
use zephyr_uds.Session
use zephyr_uds.Server.State.{Server}
use zephyr_uds.Server.Services
use zephyr_uds.Server.Process.{
  Service, session_control, security_access, service, serve, process_request,
}
use zephyr_uds.Server.Machine.{
  Event, received, s3_expires, lockout_expires, Moment, happens, restarts, power_on, restart, step,
  receive, moment, live,
}
use zephyr_uds.Server.Machine

module _ {W : Type 0} (c : Config) (os : Os W) (app : App W) where
  -- The event is a physically addressed message with a key that is accepted.
  abbrev pub Unlocks : Server W → Event → Type 0
  Unlocks s (received physical bytes) =
      KeyAccepted c os app s.world s.security (copy s.rx_buf 0 bytes) (length bytes)
  Unlocks s _ = ⊥

  serve-Unlocks :
      (v : Service) (a : Addressing) (s : Server W) (req : Buffer) (len : ℕ)
      → is_unlocked s.security.status ≡ false
      → is_unlocked (serve c os app v a s req len).0.security.status ≡ true
      → (a ≡ physical) × KeyAccepted c os app s.world s.security req len
  unfolding serve Services.session_control Security.reset_lock Services.security_access
      Services.ecu_reset Services.clear_dtc Services.read_dtc Services.write_did Services.periodic
      Services.define_dynamic_did Services.io_control Services.routine_control
      Services.request_download Services.transfer_data Services.transfer_exit
      Services.response_on_event Services.tester_present Services.read_did Services.answer_read
  serve-Unlocks session_control a s req len h k = ground arith
  serve-Unlocks security_access physical s req len h k =
      let after = (Security.handle_request c os app s.world s.security req len s.tx_buf).0.status in
      let opened : after ≡ unlocked = ground arith in
      elim ((Access.unlocked_iff_accepted c os app s.world s.security req len s.tx_buf).0 opened) [
        | inl before ↦ ground arith
        | inr accepted ↦ (refl, accepted)
      ]
  serve-Unlocks security_access functional s req len h k = ground arith
  serve-Unlocks _ a s req len h k = ground arith

  process_request-Unlocks :
      (a : Addressing) (s : Server W) (req : Buffer) (len : ℕ)
      → is_unlocked s.security.status ≡ false
      → is_unlocked (process_request c os app s req len a).0.security.status ≡ true
      → (a ≡ physical) × KeyAccepted c os app s.world s.security req len
  unfolding process_request
  process_request-Unlocks a s req len h k =
      let addressed = record s { current_msg_addressing = a } in
      let served = serve-Unlocks (service (req 0)) a addressed req len h in
      elim (Bool-cases (len == 0)) [
        | inl nothing ↦ ground arith
        | inr some_bytes ↦ served (rw some_bytes at k)
      ]

  pub step-Unlocks :
      (s : Server W) (e : Event)
      → is_unlocked s.security.status ≡ false
      → is_unlocked (step c os app s e).0.security.status ≡ true
      → Unlocks s e
  unfolding step receive
  step-Unlocks s (received physical bytes) h k =
      let req = copy s.rx_buf 0 bytes in
      (process_request-Unlocks physical (record s { rx_buf = req }) req (length bytes) h k).1
  step-Unlocks s (received functional bytes) h k =
      let req = copy s.rx_buf 0 bytes in
      cc ((process_request-Unlocks functional (record s { rx_buf = req }) req (length bytes) h k).0)
  step-Unlocks s s3_expires h k = unfold Session.s3_timer_expiry Security.reset_lock in ground arith
  step-Unlocks s lockout_expires h k = unfold Security.lockout_timer_expiry in ground arith
  step-Unlocks s _ h k = ground arith

  -- A start leaves access closed.
  pub restart-closed :
      (s : Server W) (stack : Buffer) (data_len : ℕ)
      → is_unlocked (restart c os app s stack data_len).security.status ≡ false
  unfolding restart Machine.init power_on Security.init Security.restore Security.power_on
  restart-closed s stack data_len = ground arith

  -- Somewhere in the life a message brings a key that is accepted.
  abbrev pub KeyInLife : Server W → List Moment → Type 0
  KeyInLife s [] = ⊥
  KeyInLife s (happens e ∷ rest) = Unlocks s e ⊎ KeyInLife (moment c os app s (happens e)) rest
  KeyInLife s (restarts stack data_len ∷ rest) =
      KeyInLife (moment c os app s (restarts stack data_len)) rest

  -- Over any life of the controller, of messages, expiries, work items and samples, with reboots and
  -- losses of power between any two of them, access that was not unlocked at first and is unlocked
  -- in the end was unlocked by a physically addressed message that carried, after a seed request, a
  -- key which the application's verifier accepts for the generated seed.
  pub unlock_needs_key :
      (s : Server W) (life : List Moment)
      → is_unlocked s.security.status ≡ false
      → is_unlocked (live c os app s life).security.status ≡ true
      → KeyInLife s life
  unfolding live moment
  unlock_needs_key s [] h k = ground arith
  unlock_needs_key s (happens e ∷ rest) h k =
      let s' = (step c os app s e).0 in
      elim (Bool-cases (is_unlocked s'.security.status)) [
        | inl now ↦ inl (step-Unlocks s e h now)
        | inr not_yet ↦ inr (unlock_needs_key s' rest not_yet k)
      ]
  unlock_needs_key s (restarts stack data_len ∷ rest) h k =
      unlock_needs_key (restart c os app s stack data_len) rest (restart-closed s stack data_len) k
