-- ===== src/Server/Programming/Steps.antt =====
-- src/uds_server.c: every event makes the move of its act.
use zephyr_uds.Base.{false, ◌≡◌, refl, ◌∙◌, [], ◌∷◌, ◌==◌, length, Buffer, copy, arith}
use zephyr_uds.Platform.{Config, Os, App, security_fs}
use zephyr_uds.Security
use zephyr_uds.Security.{Security, counter_id, lockout_state_id, local_key}
use zephyr_uds.Session
use zephyr_uds.Flash.Programming.{other, keep}
use zephyr_uds.Server.State.{Server}
use zephyr_uds.Server.Process.{service, process_request}
use zephyr_uds.Server.Machine.{
  Event, received, s3_expires, lockout_expires, clear_dtc_runs, routine_runs, periodic_runs, step,
  receive,
}
use zephyr_uds.Server.Quiet.{clear_worker-Same, routine_worker-Same, thread_round-Same}
use zephyr_uds.Server.Programming.{IsTarget, event_act, Moves, settled, unmoved, serve-Moves}

module _ {W : Type 0} (c : Config) (os : Os W) (app : App W) (memory : W → Buffer) where
  pub step-Moves :
      IsTarget c os app memory
      → (s : Server W) (e : Event)
      → Moves c os app memory (event_act c os app memory s e) s (step c os app s e).0
  unfolding step receive process_request
  step-Moves laws s (received a []) = keep refl refl refl refl
  step-Moves laws s (received a (b ∷ bs)) =
      let bytes = b ∷ bs in
      let req = copy s.rx_buf 0 bytes in
      let addressed = record s { rx_buf = req; current_msg_addressing = a } in
      let some_bytes : (length bytes == 0) ≡ false = ground arith in
      rw some_bytes (serve-Moves c os app memory laws (service b) a addressed req (length bytes))
  step-Moves laws s s3_expires =
      settled c os app memory s (step c os app s s3_expires).0 refl (λ i. refl)
        (λ e. unfold Session.s3_timer_expiry Security.reset_lock in ground arith)
  step-Moves laws s lockout_expires =
      let w = os.nvs_write s.world security_fs counter_id (0 ∷ []) in
      unfold Security.lockout_timer_expiry in
      settled c os app memory s (step c os app s lockout_expires).0 refl
        (λ i. laws.nvs_write w lockout_state_id 0 i ∙ laws.nvs_write s.world counter_id 0 i)
        (λ e. cc)
  step-Moves laws s clear_dtc_runs =
      unmoved c os app memory other s (step c os app s clear_dtc_runs).0 refl
        (clear_worker-Same memory os app laws.quiet s.world s.clear_dtc) refl refl
  step-Moves laws s routine_runs =
      unmoved c os app memory other s (step c os app s routine_runs).0 refl
        (routine_worker-Same memory os app laws.quiet s.world s.routine) refl refl
  step-Moves laws s periodic_runs =
      unmoved c os app memory other s (step c os app s periodic_runs).0 refl
        (thread_round-Same memory os app laws.quiet s.world s.periodic) refl refl
  step-Moves laws s _ = keep refl refl refl refl
