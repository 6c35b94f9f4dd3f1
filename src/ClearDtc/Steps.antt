-- ===== src/ClearDtc/Steps.antt =====
-- src/uds_clear_dtc.c: the worker line by line. It is preempted between its lines by the timer's
-- callback, an interrupt, and by the receiving thread, which takes the next request while the
-- worker waits for the application or sleeps.
use zephyr_uds.Base.{
  ℕ, Bool, true, false, none, some, List, [], ◌∷◌, ◌++◌, if◌then◌else◌, Buffer, ◌≡◌,
}
use zephyr_uds.Types.{Out, send, timer_stop, nrc78_timer, sleep_ms, work_submit, clear_dtc_work}
use zephyr_uds.Timing.{is_nrc78, armed_after}
use zephyr_uds.Platform.{Os, App}
use zephyr_uds.ClearDtc.{ClearDtc, nrc78_timer_expiry, handle}

-- Where the worker stands: `idle` before a request and behind the confirmation, else before the
-- line that is named.
pub data Pc : Type 0 where
  idle clears marks stops sleeps confirms : Pc

abbrev pub is_busy : Pc → Bool
is_busy idle = false
is_busy _ = true

module _ {W : Type 0} (app : App W) where
  -- The next line of clear_dtc_worker_handler.
  unfoldable pub worker_line : Pc → W → ClearDtc → Pc × W × ClearDtc × List Out
  worker_line idle w d = (idle, w, d, [])
  worker_line clears w d = (
    marks,
    elim (app.get_nvs_context w) [
      | none ↦ w
      | some fs ↦ (app.clear_persistent_dtcs w fs d.target_dtc_group).0
    ],
    d,
    [],
  )
  worker_line marks w d = (stops, w, record d { worker_done = true }, [])
  worker_line stops w d = (sleeps, w, d, timer_stop nrc78_timer ∷ [])
  worker_line sleeps w d = (confirms, w, d, sleep_ms 10 ∷ [])
  worker_line confirms w d = (idle, w, d, (if d.callbacks then send (0x54 ∷ []) ∷ [] else []))

-- The worker, the statics, and whether the timer runs.
pub record Clearing (W : Type 0) : Type 0 where
  pub world : W
  pub pc : Pc
  pub statics : ClearDtc
  pub armed : Bool

abbrev pub submits : List Out → Bool
submits [] = false
submits (work_submit work ∷ os) = true
submits (_ ∷ os) = submits os

module _ {W : Type 0} (os : Os W) (app : App W) where
  abbrev pub by_worker : Clearing W → Clearing W × List Out
  by_worker s =
      let (pc', w', d', calls) = worker_line app s.pc s.world s.statics in
      (
        record { world = w'; pc = pc'; statics = d'; armed = armed_after is_nrc78 s.armed calls },
        calls,
      )

  -- The timer is a one-shot timer: it has stopped when it calls back.
  abbrev pub by_timer : Clearing W → Clearing W × List Out
  by_timer s =
      let calls = nrc78_timer_expiry s.statics in
      (record s { armed = armed_after is_nrc78 false calls }, calls)

  -- A request starts the worker where it is accepted.
  abbrev pub by_request : Clearing W → Buffer → ℕ → Clearing W × List Out
  by_request s req len =
      let (d', calls) = handle os s.world s.statics req len in
      (
        record s {
          pc = (if submits calls then clears else s.pc);
          statics = d';
          armed = armed_after is_nrc78 s.armed calls;
        },
        calls,
      )

  -- One step, with the calls that it makes. The work item is pending, for the kernel, as long as it
  -- is submitted and has not returned. Other code may change the world at any point.
  pub data Step (s : Clearing W) : List Out → Clearing W → Type 0 where
    line :
        {calls : List Out} {t : Clearing W}
        → is_busy s.pc ≡ true
        → (by_worker s) ≡ (t, calls)
        → Step s calls t
    tick :
        {calls : List Out} {t : Clearing W}
        → s.armed ≡ true
        → (by_timer s) ≡ (t, calls)
        → Step s calls t
    request :
        {calls : List Out} {t : Clearing W} (req : Buffer) (len : ℕ)
        → os.work_is_pending s.world clear_dtc_work ≡ is_busy s.pc
        → (by_request s req len) ≡ (t, calls)
        → Step s calls t
    other : (w : W) → Step s [] (record s { world = w })

  -- A series of steps in any order, with all the calls.
  pub data Trace (s : Clearing W) : List Out → Clearing W → Type 0 where
    start : Trace s [] s
    later :
        {calls more : List Out} {t u : Clearing W}
        → Trace s calls t
        → Step t more u
        → Trace s (calls ++ more) u
