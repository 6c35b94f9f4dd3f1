-- ===== src/Routine.antt =====
-- src/uds_routine.c: RoutineControl (0x31). A routine runs on the work queue, and a periodic timer
-- sends ResponsePending meanwhile.
pub mod Steps
pub mod Interleaving
use zephyr_uds.Base.{
  ℕ, ◌+◌, ◌/◌, Bool, true, false, List, [], ◌∷◌, ltb, ◌==◌, if◌then◌else◌, u8, be16, Buffer,
}
use zephyr_uds.Types.{
  RoutineStatus, idle, running, completed, failed, SessionType, Out, send, nrc, timer_init,
  timer_start, timer_stop, work_init, work_submit, routine_nrc78_timer, routine_work,
}
use zephyr_uds.Types.Nrc
use zephyr_uds.Platform.{App, ok, stored}
use zephyr_uds.Flash.{is_default}

abbrev pub routine_nrc78_period_ms : ℕ
routine_nrc78_period_ms = 20

-- The statics of the file. `callbacks` says that the two stored callbacks are not NULL: they are
-- set together. `local_routine_tx_buf` is written whole before each use, and is left out.
pub record Routine : Type 0 where
  pub status : RoutineStatus
  pub exit_info : ℕ
  pub active_routine_id : ℕ
  pub stored_sid : ℕ
  pub callbacks : Bool

unfoldable pub power_on : Routine
power_on = record {
  status = idle;
  exit_info = 0;
  active_routine_id = 0;
  stored_sid = 0x31;
  callbacks = false;
}

-- uds_routine_init
unfoldable pub init : List Out
init = work_init routine_work ∷ timer_init routine_nrc78_timer ∷ []

abbrev pub is_running : RoutineStatus → Bool
is_running running = true
is_running _ = false

-- routine_nrc78_timer_cb
unfoldable pub nrc78_timer_expiry : Routine → List Out
nrc78_timer_expiry r = if r.callbacks then nrc r.stored_sid Nrc.response_pending ∷ [] else []

-- `(erase_routine_status == ROUTINE_COMPLETED) ? 0x00 : 0x02`
abbrev pub result_code : RoutineStatus → ℕ
result_code completed = 0x00
result_code _ = 0x02

module _ {W : Type 0} (app : App W) where
  -- routine_worker_handler
  unfoldable pub worker : W → Routine → W × Routine × List Out
  worker w r =
      let (w', ret, info_out) = app.routine_start w r.active_routine_id in
      let r' =
        if ok ret
        then record r { status = completed; exit_info = stored info_out 0 }
        else record r { status = failed; exit_info = 0x0F } in
      (
        w',
        r',
        timer_stop routine_nrc78_timer
            ∷ (if r.callbacks
                then send (
                    0x71
                    ∷ 0x01
                    ∷ u8 (r.active_routine_id / 256)
                    ∷ u8 r.active_routine_id
                    ∷ result_code r'.status
                    ∷ [])
                  ∷ []
                else []),
      )

  -- startRoutine, sub-function 0x01.
  unfoldable pub start : W → Routine → Buffer → W × Routine × List Out
  start w r req =
      if is_running r.status then (w, r, nrc (req 0) Nrc.conditions_not_correct ∷ []) else (
        w,
        record r {
          active_routine_id = be16 (req 2) (req 3);
          status = running;
          callbacks = true;
          stored_sid = req 0;
        },
        timer_start routine_nrc78_timer 0 routine_nrc78_period_ms ∷ work_submit routine_work ∷ [],
      )

  -- requestRoutineResults, sub-function 0x03.
  unfoldable pub request_results : W → Routine → Buffer → W × Routine × List Out
  request_results w r req =
      let (w', ret, status_out, exit_info_out) =
        app.routine_request_results w (be16 (req 2) (req 3)) in
      if ok ret
      then (
        w',
        r,
        send (
              u8 (req 0 + 0x40)
              ∷ req 1
              ∷ req 2
              ∷ req 3
              ∷ stored status_out 0
              ∷ stored exit_info_out 0
              ∷ [])
            ∷ [],
      )
      else (w', r, nrc (req 0) Nrc.request_out_of_range ∷ [])

  -- uds_routine_handle_control
  unfoldable pub handle_control : SessionType → W → Routine → Buffer → ℕ → W × Routine × List Out
  handle_control session w r req len =
      if len == 0
      then (w, r, [])
      else if is_default session
      then (w, r, nrc (req 0) Nrc.sub_function_not_supported_in_active_sess ∷ [])
      else if ltb len 4
      then (w, r, nrc (req 0) Nrc.incorrect_length_or_invalid_format ∷ [])
      else if req 1 == 0x01
      then start w r req
      else if req 1 == 0x03
      then request_results w r req
      else (w, r, nrc (req 0) Nrc.sub_function_not_supported ∷ [])
