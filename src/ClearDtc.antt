-- ===== src/ClearDtc.antt =====
-- src/uds_clear_dtc.c: ClearDiagnosticInformation (0x14), done on the work queue under a timer
-- that sends ResponsePending.
pub mod Protocol
pub mod Steps
pub mod Interleaving
use zephyr_uds.Base.{
  ℕ, Bool, true, false, not, none, some, List, [], ◌∷◌, ◌++◌, ◌==◌, if◌then◌else◌, be24, Buffer,
}
use zephyr_uds.Types.{
  Out, send, nrc, timer_init, timer_start, timer_stop, work_init, work_submit, sleep_ms,
  nrc78_timer, clear_dtc_work,
}
use zephyr_uds.Types.Nrc
use zephyr_uds.Platform.{Os, App}

abbrev pub nrc78_period_ms : ℕ
nrc78_period_ms = 20

-- The statics of the file. `callbacks` says that the two stored callbacks are not NULL: they are
-- set together.
pub record ClearDtc : Type 0 where
  pub target_dtc_group : ℕ
  pub stored_sid : ℕ
  pub worker_done : Bool
  pub callbacks : Bool

unfoldable pub power_on : ClearDtc
power_on = record {
  target_dtc_group = 0;
  stored_sid = 0x14;
  worker_done = false;
  callbacks = false;
}

-- uds_clear_dtc_init
unfoldable pub init : List Out
init = work_init clear_dtc_work ∷ timer_init nrc78_timer ∷ []

-- nrc78_timer_expiry_cb, with `worker_done` read as one value throughout.
unfoldable pub nrc78_timer_expiry : ClearDtc → List Out
nrc78_timer_expiry d =
    if d.worker_done
    then []
    else (if d.callbacks then nrc d.stored_sid Nrc.response_pending ∷ [] else [])
      ++ timer_start nrc78_timer nrc78_period_ms 0 ∷ []

module _ {W : Type 0} (app : App W) where
  -- clear_dtc_worker_handler
  unfoldable pub worker : W → ClearDtc → W × ClearDtc × List Out
  worker w d = (
    elim (app.get_nvs_context w) [
      | none ↦ w
      | some fs ↦ (app.clear_persistent_dtcs w fs d.target_dtc_group).0
    ],
    record d { worker_done = true },
    timer_stop nrc78_timer ∷ sleep_ms 10 ∷ (if d.callbacks then send (0x54 ∷ []) ∷ [] else []),
  )

module _ {W : Type 0} (os : Os W) where
  -- uds_clear_dtc_handle
  unfoldable pub handle : W → ClearDtc → Buffer → ℕ → ClearDtc × List Out
  handle w d req len =
      if not (len == 4)
      then (d, nrc (req 0) Nrc.incorrect_length_or_invalid_format ∷ [])
      else if os.work_is_pending w clear_dtc_work
      then (d, nrc (req 0) Nrc.conditions_not_correct ∷ [])
      else (
        record {
          target_dtc_group = be24 (req 1) (req 2) (req 3);
          stored_sid = req 0;
          worker_done = false;
          callbacks = true;
        },
        timer_start nrc78_timer nrc78_period_ms 0 ∷ work_submit clear_dtc_work ∷ [],
      )
