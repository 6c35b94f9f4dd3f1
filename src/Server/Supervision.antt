-- ===== src/Server/Supervision.antt =====
-- src/uds_session.c and src/uds_server.c: the S3 timer runs exactly outside the default session.
use mathlib.Core.List.{flatten}
use zephyr_uds.Base.{
  all-append, ℕ, zero, suc, ◌≡◌, ◌≢◌, refl, sym, ap, ◌∙◌, Bool, true, false, not, Bool-cases, inl,
  inr, List, [], ◌∷◌, ◌==◌, all, length, Buffer, copy, arith,
}
use zephyr_uds.Types.{Addressing, physical, functional, Out}
use zephyr_uds.Platform.{Config, Os, App}
use zephyr_uds.Session
use zephyr_uds.Periodic
use zephyr_uds.Periodic.{Periodic}
use zephyr_uds.ClearDtc
use zephyr_uds.Routine
use zephyr_uds.Reset
use zephyr_uds.Flash.{is_default}
use zephyr_uds.Server.State.{Server, send_nrc, perform, perform_all}
use zephyr_uds.Server.Services
use zephyr_uds.Server.Answers.All
use zephyr_uds.Server.Process.{
  Service, session_control, physical_only, service, serve, process_request,
}
use zephyr_uds.Server.Machine.{Event, s3_expires, received, step, receive}
use zephyr_uds.Timing.{is_s3, armed_after, armed_after-append}
use zephyr_uds.Server.Arming.{spares, all_spare, perform_all_arm, refresh_arm}

module _ {W : Type 0} (c : Config) (os : Os W) (app : App W) where
  physical_only-session :
      (a : Addressing) (sid : ℕ) (s : Server W) (handled : Server W × List Out)
      → handled.0.session ≡ s.session
      → (physical_only a sid s handled).0.session ≡ s.session
  physical_only-session physical sid s handled h = h
  physical_only-session functional sid s handled h = refl

  -- Only session control changes the session.
  serve-session :
      (v : Service) (a : Addressing) (s : Server W) (req : Buffer) (len : ℕ)
      → v ≢ session_control
      → (serve c os app v a s req len).0.session ≡ s.session
  unfolding serve Services.ecu_reset Services.clear_dtc Services.read_dtc Services.security_access
      Services.write_did Services.periodic Services.define_dynamic_did Services.io_control
      Services.routine_control Services.request_download Services.transfer_data
      Services.transfer_exit Services.response_on_event Services.tester_present Services.read_did
      Services.answer_read
  serve-session session_control a s req len h = absurd (h refl)
  serve-session Service.security_access a s req len h = physical_only-session a (req 0) s _ refl
  serve-session Service.io_control a s req len h = physical_only-session a (req 0) s _ refl
  serve-session Service.request_download a s req len h = physical_only-session a (req 0) s _ refl
  serve-session Service.transfer_data a s req len h = physical_only-session a (req 0) s _ refl
  serve-session Service.transfer_exit a s req len h = physical_only-session a (req 0) s _ refl
  serve-session _ a s req len h = ground arith

  session_control-arms :
      (a : Addressing) (b : Bool) (s : Server W) (req : Buffer) (len : ℕ)
      → b ≡ not (is_default s.session)
      → let (s', calls) = Services.session_control c s req len in
        armed_after is_s3 b (perform_all a calls) ≡ not (is_default s'.session)
  unfolding Services.session_control Services.session_of_byte Session.set Session.refresh_timer
      perform_all perform send_nrc
  session_control-arms a b s req len h = ground arith

  serve-arms :
      (v : Service) (a : Addressing) (b : Bool) (s : Server W) (req : Buffer) (len : ℕ)
      → service (req 0) ≡ v
      → b ≡ not (is_default s.session)
      → let (s', calls) = serve c os app v a s req len in
        armed_after is_s3 b (perform_all a calls) ≡ not (is_default s'.session)
  serve-arms session_control a b s req len e h =
      unfold serve in session_control-arms a b s req len h
  serve-arms v a b s req len e h =
      let calls = (serve c os app v a s req len).1 in
      let differs : v ≢ session_control = λ same. ground arith in
      perform_all_arm a b calls
        (all_spare (req 0) calls (All.serve-proper c os app v a s req len e differs))
      ∙ (h ∙ ap (λ session. not (is_default session)) (sym (serve-session v a s req len differs)))

  process_request-arms :
      (b : Bool) (s : Server W) (req : Buffer) (len : ℕ) (a : Addressing)
      → b ≡ not (is_default s.session)
      → let (s', calls) = process_request c os app s req len a in
        armed_after is_s3 b calls ≡ not (is_default s'.session)
  unfolding process_request
  process_request-arms b s req len a h = elim (Bool-cases (len == 0)) [
    | inl nothing ↦ rw nothing h
    | inr some_bytes ↦
        let addressed = record s { current_msg_addressing = a } in
        let calls = (serve c os app (service (req 0)) a addressed req len).1 in
        let refreshed = Session.refresh_timer c s.session in
        rw some_bytes (
          armed_after-append is_s3 b refreshed (perform_all a calls)
          ∙ serve-arms (service (req 0)) a (armed_after is_s3 b refreshed) addressed req len refl
              (refresh_arm c b s.session))
  ]

  sample_all-spares :
      (n i : ℕ) (w : W) (p : Periodic)
      → all spares (flatten (Periodic.sample_all app n i w p).2) ≡ true
  unfolding Periodic.sample_all flatten
  sample_all-spares zero i w p = refl
  sample_all-spares (suc n) i w p =
      let (w', p', sent) = Periodic.sample app i w p in
      all-append spares sent (flatten (Periodic.sample_all app n (suc i) w' p').2)
        (unfold Periodic.sample in ground arith) (sample_all-spares n (suc i) w' p')

  thread_round-spares :
      (w : W) (p : Periodic) → all spares (flatten (Periodic.thread_round app w p).2) ≡ true
  unfolding Periodic.thread_round flatten
  thread_round-spares w p = ground (arith, sample_all-spares p.active_did_count 0 w p)

  -- The S3 timer runs or not behind an event: it is a one-shot timer, so it stops by expiring.
  abbrev pub armed_by : Event → Bool → List Out → Bool
  armed_by s3_expires armed calls = false
  armed_by _ armed calls = armed_after is_s3 armed calls

  step-arms :
      (b : Bool) (s : Server W) (e : Event)
      → b ≡ not (is_default s.session)
      → let (s', calls) = step c os app s e in armed_by e b calls ≡ not (is_default s'.session)
  unfolding step receive
  step-arms b s s3_expires h = unfold Session.s3_timer_expiry in ground arith
  step-arms b s (received a bytes) h =
      let rx' = copy s.rx_buf 0 bytes in
      process_request-arms b (record s { rx_buf = rx' }) rx' (length bytes) a h
  step-arms b s Event.nrc78_expires h =
      perform_all_arm s.current_msg_addressing b (ClearDtc.nrc78_timer_expiry s.clear_dtc)
        (unfold ClearDtc.nrc78_timer_expiry in ground arith)
      ∙ h
  step-arms b s Event.routine_nrc78_expires h =
      perform_all_arm s.current_msg_addressing b (Routine.nrc78_timer_expiry s.routine)
        (unfold Routine.nrc78_timer_expiry in ground arith)
      ∙ h
  step-arms b s Event.clear_dtc_runs h =
      perform_all_arm s.current_msg_addressing b (ClearDtc.worker app s.world s.clear_dtc).2
        (unfold ClearDtc.worker in ground arith)
      ∙ h
  step-arms b s Event.routine_runs h =
      perform_all_arm s.current_msg_addressing b (Routine.worker app s.world s.routine).2
        (unfold Routine.worker in ground arith)
      ∙ h
  step-arms b s Event.periodic_runs h =
      perform_all_arm s.current_msg_addressing b
        (flatten (Periodic.thread_round app s.world s.periodic).2)
        (thread_round-spares s.world s.periodic)
      ∙ h
  step-arms b s Event.lockout_expires h = h
  step-arms b s Event.reset_expires h = unfold Reset.reset_timer_expiry in h

  -- Whether the timer runs behind a history, and the server there.
  pub supervise : Bool → Server W → List Event → Bool × Server W
  supervise armed s [] = (armed, s)
  supervise armed s (e ∷ es) =
      let (s', calls) = step c os app s e in supervise (armed_by e armed calls) s' es

  -- The S3 timer runs exactly outside the default session, after any history of messages, timer
  -- expiries, work items and samples, if it did so before.
  pub s3_supervised :
      (b : Bool) (s : Server W) (events : List Event)
      → b ≡ not (is_default s.session)
      → let (b', s') = supervise b s events in b' ≡ not (is_default s'.session)
  unfolding supervise
  s3_supervised b s [] h = h
  s3_supervised b s (e ∷ es) h =
      let (s', calls) = step c os app s e in
      s3_supervised (armed_by e b calls) s' es (step-arms b s e h)
