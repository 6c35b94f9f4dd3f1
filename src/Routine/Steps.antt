-- ===== src/Routine/Steps.antt =====
-- src/uds_routine.c: the worker line by line. The system work queue is cooperative: the receiving
-- thread takes a request while the worker waits for the application or has left, and the timer's
-- callback, an interrupt, comes between any two lines.
use zephyr_uds.Base.{
  ℕ, ◌/◌, ◌≡◌, Bool, true, false, List, [], ◌∷◌, ◌++◌, map, if◌then◌else◌, u8, be16, Buffer,
}
use zephyr_uds.Types.{
  completed, failed, SessionType, Out, send, timer_stop, work_submit, routine_nrc78_timer,
}
use zephyr_uds.Timing.{is_routine_nrc78, armed_after}
use zephyr_uds.Platform.{App, ok, stored}
use zephyr_uds.Routine.{Routine, result_code, nrc78_timer_expiry, handle_control}

-- Where the worker stands: `idle` before a start and behind the final response, else before the
-- line that is named. Behind the application's hook it knows whether the hook succeeded, and what
-- it stored.
pub data Pc : Type 0 where
  idle calls stops answers : Pc
  marks : Bool → ℕ → Pc

-- The points where the receiving thread can run.
abbrev pub yields : Pc → Bool
yields idle = true
yields calls = true
yields _ = false

abbrev pub is_busy : Pc → Bool
is_busy idle = false
is_busy _ = true

-- What is seen from outside: a start that is accepted, with its routine; that the application's
-- hook returned; and the calls.
pub data Seen : Type 0 where
  accepted : ℕ → Seen
  returned : Bool → Seen
  called : Out → Seen

module _ {W : Type 0} (app : App W) where
  -- The next line of routine_worker_handler.
  unfoldable pub worker_line : Pc → W → Routine → Pc × W × Routine × List Seen
  worker_line idle w r = (idle, w, r, [])
  worker_line calls w r =
      let (w', ret, info_out) = app.routine_start w r.active_routine_id in
      (marks (ok ret) (stored info_out 0), w', r, returned (ok ret) ∷ [])
  worker_line (marks true info) w r =
      (stops, w, record r { status = completed; exit_info = info }, [])
  worker_line (marks false info) w r =
      (stops, w, record r { status = failed; exit_info = 0x0F }, [])
  worker_line stops w r = (answers, w, r, called (timer_stop routine_nrc78_timer) ∷ [])
  worker_line answers w r = (
    idle,
    w,
    r,
    (if r.callbacks
        then called (
            send (
              0x71
              ∷ 0x01
              ∷ u8 (r.active_routine_id / 256)
              ∷ u8 r.active_routine_id
              ∷ result_code r.status
              ∷ []))
          ∷ []
        else []),
  )

-- The worker, the statics, and whether the timer runs.
pub record Running (W : Type 0) : Type 0 where
  pub world : W
  pub pc : Pc
  pub statics : Routine
  pub armed : Bool

abbrev pub submits : List Out → Bool
submits [] = false
submits (work_submit work ∷ os) = true
submits (_ ∷ os) = submits os

-- The calls among what is seen.
abbrev pub calls_of : List Seen → List Out
calls_of [] = []
calls_of (called o ∷ rest) = o ∷ calls_of rest
calls_of (_ ∷ rest) = calls_of rest

module _ {W : Type 0} (app : App W) where
  abbrev pub by_worker : Running W → Running W × List Seen
  by_worker s =
      let (pc', w', r', seen) = worker_line app s.pc s.world s.statics in
      (
        record {
          world = w';
          pc = pc';
          statics = r';
          armed = armed_after is_routine_nrc78 s.armed (calls_of seen);
        },
        seen,
      )

  -- The timer is periodic: it runs on behind its callback.
  abbrev pub by_timer : Running W → Running W × List Seen
  by_timer s = (s, map called (nrc78_timer_expiry s.statics))

  -- A request, which submits the work where it is a start that is accepted.
  abbrev pub by_request : SessionType → Running W → Buffer → ℕ → Running W × List Seen
  by_request session s req len =
      let (w', r', outs) = handle_control app session s.world s.statics req len in
      let seen = map called outs in
      (
        record {
          world = w';
          pc = (if submits outs then calls else s.pc);
          statics = r';
          armed = armed_after is_routine_nrc78 s.armed outs;
        },
        (if submits outs then accepted (be16 (req 2) (req 3)) ∷ seen else seen),
      )

  -- One step, with what is seen of it. Other code may change the world at any point.
  pub data Step (s : Running W) : List Seen → Running W → Type 0 where
    line :
        {seen : List Seen} {t : Running W}
        → is_busy s.pc ≡ true
        → (by_worker s) ≡ (t, seen)
        → Step s seen t
    tick :
        {seen : List Seen} {t : Running W}
        → s.armed ≡ true
        → (by_timer s) ≡ (t, seen)
        → Step s seen t
    request :
        {seen : List Seen} {t : Running W} (session : SessionType) (req : Buffer) (len : ℕ)
        → yields s.pc ≡ true
        → req 0 ≡ 0x31
        → (by_request session s req len) ≡ (t, seen)
        → Step s seen t
    other : (w : W) → Step s [] (record s { world = w })

  -- A series of steps in any order, with all that is seen.
  pub data Trace (s : Running W) : List Seen → Running W → Type 0 where
    start : Trace s [] s
    later :
        {seen more : List Seen} {t u : Running W}
        → Trace s seen t
        → Step t more u
        → Trace s (seen ++ more) u
