-- ===== src/Server/Answers/All.antt =====
-- src/uds_server.c: every answer of the switch names the service that it answers.
use zephyr_uds.Base.{ℕ, ◌+◌, ◌≡◌, ◌≢◌, all, refl, true, List, Buffer, slice_first, arith}
use zephyr_uds.Types.{Addressing, physical, functional, Ret, Out}
use zephyr_uds.Platform.{Config, Os, App}
use zephyr_uds.Session
use zephyr_uds.Server.State.{Server}
use zephyr_uds.Server.Services
use zephyr_uds.Server.Services.{did_header, session_of_byte}
use zephyr_uds.Server.Process.{
  Service, service, serve, physical_only, session_control, ecu_reset, clear_dtc, read_dtc, read_did,
  security_access, write_did, periodic, define_dynamic_did, io_control, routine_control,
  request_download, transfer_data, transfer_exit, response_on_event, tester_present, other,
}
use zephyr_uds.Server.Answers.{
  AllProper, answers, all_answer, security-proper, reset-proper, write_did-proper,
  io_control-proper, routine-proper, clear_dtc-proper, define-proper, periodic-proper,
  request_download-proper, transfer_data-proper, transfer_exit-proper, read_dtc-proper,
}

module _ {W : Type 0} (c : Config) (os : Os W) (app : App W) where
  answer_read-proper :
      (s : Server W) (req : Buffer) (ret : Ret) (d_len : ℕ)
      → AllProper req (Services.answer_read s req ret d_len).1
  unfolding Services.answer_read
  answer_read-proper s req ret d_len =
      ground (arith, slice_first (3 + d_len) (2 + d_len) (did_header req s.tx_buf) (omega arith))

  read_did-proper :
      (s : Server W) (req : Buffer) (len : ℕ)
      → AllProper req (Services.read_did c os app s req len).1
  unfolding Services.read_did
  read_did-proper s req len = grind (arith, answer_read-proper)

  session_control-answers :
      (s : Server W) (req : Buffer) (len : ℕ)
      → all (answers (req 0)) (Services.session_control c s req len).1 ≡ true
  unfolding Services.session_control Session.set
  session_control-answers s req len = ground arith

  physical_only-proper :
      (a : Addressing) (s : Server W) (req : Buffer) (handled : Server W × List Out)
      → AllProper req handled.1
      → AllProper req (physical_only a (req 0) s handled).1
  physical_only-proper physical s req handled h = h
  physical_only-proper functional s req handled h = ground arith

  periodic_sid : (sid : ℕ) → service sid ≡ periodic → sid ≡ 0x2A
  unfolding service
  periodic_sid sid e = ground arith

  define_sid : (sid : ℕ) → service sid ≡ define_dynamic_did → sid ≡ 0x2C
  unfolding service
  define_sid sid e = ground arith

  pub serve-proper :
      (v : Service) (a : Addressing) (s : Server W) (req : Buffer) (len : ℕ)
      → service (req 0) ≡ v
      → v ≢ session_control
      → AllProper req (serve c os app v a s req len).1
  unfolding serve Services.ecu_reset Services.clear_dtc Services.read_dtc Services.security_access
      Services.write_did Services.periodic Services.define_dynamic_did Services.io_control
      Services.routine_control Services.request_download Services.transfer_data
      Services.transfer_exit Services.response_on_event Services.tester_present
  serve-proper session_control a s req len e not_session = absurd (not_session refl)
  serve-proper ecu_reset a s req len e not_session =
      reset-proper c os app s.world s.chosen_reset_type req len s.tx_buf
  serve-proper clear_dtc a s req len e not_session =
      clear_dtc-proper c os app s.world s.clear_dtc req len
  serve-proper read_dtc a s req len e not_session =
      read_dtc-proper c os app s.world req len s.tx_buf
  serve-proper read_did a s req len e not_session = read_did-proper s req len
  serve-proper security_access a s req len e not_session =
      physical_only-proper a s req _ (security-proper c os app s.world s.security req len s.tx_buf)
  serve-proper write_did a s req len e not_session =
      write_did-proper c os app s.session s.security.status s.world req len s.tx_buf
  serve-proper periodic a s req len e not_session =
      periodic-proper c os app s.periodic req len (periodic_sid (req 0) e)
  serve-proper define_dynamic_did a s req len e not_session =
      define-proper c os app s.dyn_map req len (define_sid (req 0) e)
  serve-proper io_control a s req len e not_session =
      physical_only-proper a s req _
        (io_control-proper c os app s.session s.security.status s.world req len s.tx_buf)
  serve-proper routine_control a s req len e not_session =
      routine-proper c os app s.session s.world s.routine req len
  serve-proper request_download a s req len e not_session = physical_only-proper a s req _ (
      request_download-proper c os app s.session s.security.status s.world s.flash req len s.tx_buf)
  serve-proper transfer_data a s req len e not_session =
      physical_only-proper a s req _
        (transfer_data-proper c os app s.world s.flash req len s.tx_buf)
  serve-proper transfer_exit a s req len e not_session =
      physical_only-proper a s req _ (transfer_exit-proper c os app s.world s.flash req s.tx_buf)
  serve-proper response_on_event a s req len e not_session = ground arith
  serve-proper tester_present a s req len e not_session = ground arith
  serve-proper other a s req len e not_session = ground arith

  -- Whatever a request holds, in whatever state and with whatever application, every answer that
  -- its service gives names it: a positive one begins with its identifier plus 0x40, and a negative
  -- one carries its identifier. All services are covered, and the default of the switch.
  pub serve-answers :
      (v : Service) (a : Addressing) (s : Server W) (req : Buffer) (len : ℕ)
      → service (req 0) ≡ v
      → all (answers (req 0)) (serve c os app v a s req len).1 ≡ true
  serve-answers session_control a s req len e = unfold serve in session_control-answers s req len
  serve-answers v a s req len e =
      all_answer (req 0) (serve c os app v a s req len).1
        (serve-proper v a s req len e (λ same. ground arith))
