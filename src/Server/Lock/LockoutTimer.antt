-- ===== src/Server/Lock/LockoutTimer.antt =====
-- src/uds_security.c within src/uds_server.c: a lockout is timed, so that it ends.
pub mod Calls
use zephyr_uds.Base.{true, ◌&&◌}
use zephyr_uds.Timing.{is_lockout, armed_after, armed_after-append}
use zephyr_uds.Server.Arming.{armed_after-perform_all, armed_after-refresh}
use zephyr_uds.Server.Lock.LockoutTimer.Calls.{serve-arms}
use mathlib.Core.List.{flatten}
use zephyr_uds.Base.{
  ℕ, zero, suc, ◌≡◌, refl, ap, ◌∙◌, Bool, false, Bool-cases, inl, inr, List, [], ◌∷◌, ◌++◌, ◌==◌,
  length, copy, arith,
}
use zephyr_uds.Types.{Addressing, locked, Out, thread_create}
use zephyr_uds.Platform.{Config, Os, App}
use zephyr_uds.Security
use zephyr_uds.Security.{Security, is_locked_out, sector_count}
use zephyr_uds.Session
use zephyr_uds.Routine
use zephyr_uds.ClearDtc
use zephyr_uds.Periodic
use zephyr_uds.Periodic.{Periodic}
use zephyr_uds.Reset
use zephyr_uds.Server.State.{Server, perform_all}
use zephyr_uds.Server.Process.{service, serve, process_request}
use zephyr_uds.Server.Machine.{
  Event, received, s3_expires, lockout_expires, clear_dtc_runs, routine_runs, periodic_runs,
  nrc78_expires, routine_nrc78_expires, Moment, happens, restarts, power_on, restart, step, receive,
  moment,
}
use zephyr_uds.Server.Machine

module _ {W : Type 0} (c : Config) (os : Os W) (app : App W) where
  message-arms :
      (a : Addressing) (s : Server W) (bytes : List ℕ) (b : Bool)
      → b ≡ is_locked_out s.security.status
      → let (s', calls) = receive c os app s a bytes in
        armed_after is_lockout b calls ≡ is_locked_out s'.security.status
  unfolding receive process_request
  message-arms a s bytes b h =
      let req = copy s.rx_buf 0 bytes in
      let addressed = record s { rx_buf = req; current_msg_addressing = a } in
      let calls = (serve c os app (service (req 0)) a addressed req (length bytes)).1 in
      elim (Bool-cases (length bytes == 0)) [
        | inl nothing ↦ rw nothing h
        | inr some_bytes ↦ rw some_bytes (
            armed_after-append is_lockout b (Session.refresh_timer c s.session)
              (perform_all a calls)
            ∙ (ap (λ x. armed_after is_lockout x (perform_all a calls))
                  (armed_after-refresh c is_lockout b s.session refl)
                ∙ (armed_after-perform_all is_lockout a b calls
                    ∙ serve-arms c os app (service (req 0)) a addressed req (length bytes) b h)))
      ]

  sample_all-arms :
      (rounds i : ℕ) (w : W) (p : Periodic) (b : Bool)
      → armed_after is_lockout b (flatten (Periodic.sample_all app rounds i w p).2) ≡ b
  unfolding Periodic.sample_all flatten
  sample_all-arms zero i w p b = refl
  sample_all-arms (suc rounds) i w p b =
      let (w', p', sent) = Periodic.sample app i w p in
      let later = flatten (Periodic.sample_all app rounds (suc i) w' p').2 in
      let none_armed : armed_after is_lockout b sent ≡ b = unfold Periodic.sample in ground arith in
      armed_after-append is_lockout b sent later
      ∙ (ap (λ x. armed_after is_lockout x later) none_armed
          ∙ sample_all-arms rounds (suc i) w' p' b)

  thread_round-arms :
      (w : W) (p : Periodic) (b : Bool)
      → armed_after is_lockout b (flatten (Periodic.thread_round app w p).2) ≡ b
  unfolding Periodic.thread_round flatten
  thread_round-arms w p b = ground (arith, sample_all-arms p.active_did_count 0 w p b)

  -- The timer runs or not behind an event: it is a one-shot timer, so it stops by expiring.
  abbrev pub lockout_armed_by : Event → Bool → List Out → Bool
  lockout_armed_by lockout_expires armed calls = armed_after is_lockout false calls
  lockout_armed_by _ armed calls = armed_after is_lockout armed calls

  pub step-arms :
      (s : Server W) (e : Event) (b : Bool)
      → b ≡ is_locked_out s.security.status
      → let (s', calls) = step c os app s e in
        lockout_armed_by e b calls ≡ is_locked_out s'.security.status
  unfolding step
  step-arms s (received a bytes) b h = message-arms a s bytes b h
  step-arms s s3_expires b h = unfold Session.s3_timer_expiry Security.reset_lock in ground arith
  step-arms s lockout_expires b h = unfold Security.lockout_timer_expiry in refl
  step-arms s nrc78_expires b h =
      armed_after-perform_all is_lockout s.current_msg_addressing b
        (ClearDtc.nrc78_timer_expiry s.clear_dtc)
      ∙ unfold ClearDtc.nrc78_timer_expiry in ground arith
  step-arms s routine_nrc78_expires b h =
      armed_after-perform_all is_lockout s.current_msg_addressing b
        (Routine.nrc78_timer_expiry s.routine)
      ∙ unfold Routine.nrc78_timer_expiry in ground arith
  step-arms s clear_dtc_runs b h =
      armed_after-perform_all is_lockout s.current_msg_addressing b
        (ClearDtc.worker app s.world s.clear_dtc).2
      ∙ unfold ClearDtc.worker in ground arith
  step-arms s routine_runs b h =
      armed_after-perform_all is_lockout s.current_msg_addressing b
        (Routine.worker app s.world s.routine).2
      ∙ unfold Routine.worker in ground arith
  step-arms s periodic_runs b h =
      armed_after-perform_all is_lockout s.current_msg_addressing b
        (flatten (Periodic.thread_round app s.world s.periodic).2)
      ∙ (thread_round-arms s.world s.periodic b ∙ h)
  step-arms s Event.reset_expires b h = unfold Reset.reset_timer_expiry in h

  -- A start arms the timer exactly where it takes up a lockout.
  security_init-arms :
      (w : W) (s : Security)
      → s.status ≡ locked
      → let (w', s', calls) = Security.init c os w s in
        armed_after is_lockout false calls ≡ is_locked_out s'.status
  unfolding Security.init Security.restore
  security_init-arms w s h = ground arith

  pub init-arms :
      (s : Server W)
      → s.security.status ≡ locked
      → let (ret, s', calls) = Machine.init c os app s in
        armed_after is_lockout false calls ≡ is_locked_out s'.security.status
  unfolding Machine.init Session.init Routine.init Reset.init ClearDtc.init
  init-arms s h =
      let w = (os.can_start s.world).0 in
      let calls = (Security.init c os w s.security).2 in
      let rest = Routine.init ++ (Reset.init ++ (ClearDtc.init ++ thread_create ∷ [])) in
      ground
        (arith, armed_after-append is_lockout false calls rest, security_init-arms w s.security h)

  -- Whether the timer runs behind a life, and the server there. A restart begins with no timer.
  pub watch_lockout : Bool → Server W → List Moment → Bool × Server W
  watch_lockout armed s [] = (armed, s)
  watch_lockout armed s (happens e ∷ rest) =
      let (s', calls) = step c os app s e in watch_lockout (lockout_armed_by e armed calls) s' rest
  watch_lockout armed s (restarts stack data_len ∷ rest) =
      let (ret, s', calls) = Machine.init c os app (power_on c s.world stack data_len) in
      watch_lockout (armed_after is_lockout false calls) s' rest

  -- Over any life of the controller, restarts between any two events included, the lockout timer
  -- runs exactly while there is a lockout, if it did so at first: no lockout is left without the
  -- timer that ends it, and the timer never runs without one. Nothing is assumed of the platform.
  pub lockout_timed :
      (b : Bool) (s : Server W) (life : List Moment)
      → b ≡ is_locked_out s.security.status
      → let (b', s') = watch_lockout b s life in b' ≡ is_locked_out s'.security.status
  unfolding watch_lockout
  lockout_timed b s [] h = h
  lockout_timed b s (happens e ∷ rest) h =
      let (s', calls) = step c os app s e in
      lockout_timed (lockout_armed_by e b calls) s' rest (step-arms s e b h)
  lockout_timed b s (restarts stack data_len ∷ rest) h =
      let (ret, s', calls) = Machine.init c os app (power_on c s.world stack data_len) in
      lockout_timed (armed_after is_lockout false calls) s' rest
        (init-arms (power_on c s.world stack data_len) (unfold power_on Security.power_on in refl))
