-- ===== src/Server/Lock/BruteForce.antt =====
-- src/uds_security.c within src/uds_server.c: how many keys a tester can try, over any history.
use zephyr_uds.Base.{
  ℕ, ◌+◌, ◌≤◌, ◌≡◌, refl, Bool, true, false, Bool-cases, inl, inr, List, ◌==◌, length,
  if◌then◌else◌, Buffer, copy, arith,
}
use zephyr_uds.Types.{Addressing, physical, functional}
use zephyr_uds.Platform.{Config, IsConfig, Os, App, ok}
use zephyr_uds.Security
use zephyr_uds.Security.Guessing
use zephyr_uds.Security.Guessing.{IsCounting, asks_verifier, FillsBuffer}
use zephyr_uds.Session
use zephyr_uds.Server.State.{Server}
use zephyr_uds.Server.Services
use zephyr_uds.Server.Process.{
  Service, security_access, session_control, service, serve, process_request,
}
use zephyr_uds.Server.Machine.{Event, received, s3_expires, lockout_expires, step, receive}

module _ {W : Type 0} (c : Config) (os : Os W) (app : App W) where
  -- The guess that a message makes: a physically addressed key that reaches the verifier.
  abbrev guess : Service → Addressing → Server W → Buffer → ℕ → ℕ
  guess security_access physical s req len =
      if asks_verifier c os app s.security req len then 1 else 0
  guess _ _ s req len = 0

  abbrev pub guess_by : Server W → Event → ℕ
  guess_by s (received a bytes) =
      let req = copy s.rx_buf 0 bytes in guess (service (req 0)) a s req (length bytes)
  guess_by s _ = 0

  -- The expiries of the lockout.
  abbrev pub is_lockout_expiry : Event → Bool
  is_lockout_expiry lockout_expires = true
  is_lockout_expiry _ = false

  -- No key is accepted.
  abbrev pub AcceptsNone : Type 0
  AcceptsNone =
      (w : W) (level : ℕ) (seed key : List ℕ)
      → ok (app.verify_key_krypto w level seed key).1 ≡ false

  serve-counts :
      IsConfig c
      → FillsBuffer c os app
      → AcceptsNone
      → (v : Service) (a : Addressing) (s : Server W) (req : Buffer) (len : ℕ)
      → IsCounting c s.security
      → let s' = (serve c os app v a s req len).0 in
        IsCounting c s'.security
        × (guess v a s req len + s.security.failed_attempts_counter
            ≡ s'.security.failed_attempts_counter)
  unfolding serve Services.session_control Security.reset_lock Services.security_access
      Services.ecu_reset Services.clear_dtc Services.read_dtc Services.write_did Services.periodic
      Services.define_dynamic_did Services.io_control Services.routine_control
      Services.request_download Services.transfer_data Services.transfer_exit
      Services.response_on_event Services.tester_present Services.read_did Services.answer_read
  serve-counts v fills none_fits session_control a s req len k = (ground arith, ground arith)
  serve-counts v fills none_fits security_access physical s req len k = (
    Guessing.handle_request-IsCounting c os app v fills s.world s.security req len s.tx_buf k,
    Guessing.guess_costs c os app v none_fits s.world s.security req len s.tx_buf k,
  )
  serve-counts v fills none_fits security_access functional s req len k = (k, ground arith)
  serve-counts v fills none_fits _ a s req len k = (ground arith, ground arith)

  guess_nothing :
      (v : Service) (a : Addressing) (s : Server W) (req : Buffer) (len : ℕ)
      → len ≡ 0
      → guess v a s req len ≡ 0
  guess_nothing security_access physical s req len e = ground arith
  guess_nothing security_access functional s req len e = refl
  guess_nothing _ a s req len e = refl

  message-counts :
      IsConfig c
      → FillsBuffer c os app
      → AcceptsNone
      → (a : Addressing) (s : Server W) (bytes : List ℕ) → IsCounting c s.security
      → let s' = (receive c os app s a bytes).0 in
        IsCounting c s'.security
        × (guess_by s (received a bytes) + s.security.failed_attempts_counter
            ≡ s'.security.failed_attempts_counter)
  unfolding receive process_request
  message-counts v fills none_fits a s bytes k =
      let req = copy s.rx_buf 0 bytes in
      let addressed = record s { rx_buf = req; current_msg_addressing = a } in
      let served =
        serve-counts v fills none_fits (service (req 0)) a addressed req (length bytes) k in
      elim (Bool-cases (length bytes == 0)) [
        | inl nothing ↦
            (ground arith, ground (arith, guess_nothing (service (req 0)) a s req (length bytes)))
        | inr some_bytes ↦ rw some_bytes (ground (arith, served))
      ]

  -- What an event costs, with the guess that it makes: an expiry alone gives guesses back.
  pub step-counts :
      IsConfig c
      → FillsBuffer c os app
      → AcceptsNone
      → (s : Server W) (e : Event) → IsCounting c s.security
      → let s' = (step c os app s e).0 in
        IsCounting c s'.security
        × (guess_by s e + s.security.failed_attempts_counter
            ≤ (if is_lockout_expiry e then c.max_failed_attempts else 0)
              + s'.security.failed_attempts_counter)
  unfolding step
  step-counts v fills none_fits s (received a bytes) k =
      let (counting, cost) = message-counts v fills none_fits a s bytes k in
      (counting, omega (arith, cost))
  step-counts v fills none_fits s s3_expires k =
      unfold Session.s3_timer_expiry Security.reset_lock in (ground arith, ground arith)
  step-counts v fills none_fits s lockout_expires k =
      unfold Security.lockout_timer_expiry in (ground arith, ground arith)
  step-counts v fills none_fits s _ k = (ground arith, ground arith)
