-- ===== src/Routine/Interleaving.antt =====
-- src/uds_routine.c: a routine under every interleaving of the worker's lines, the timer and
-- requests.
use mathlib.Core.Path.{subst}
use zephyr_uds.Base.{
  zero, suc, ℕ, ◌/◌, ◌≡◌, ◌≢◌, refl, ap, ◌∙◌, Bool, true, false, not, ◌&&◌, ◌||◌, List, [], ◌∷◌,
  ◌++◌, ◌==◌, if◌then◌else◌, u8, Buffer, arith,
}
use zephyr_uds.Types.{RoutineStatus, running, completed, SessionType, send, nrc}
use zephyr_uds.Types.Nrc
use zephyr_uds.Platform.{App}
use zephyr_uds.Routine.{
  Routine, is_running, nrc78_timer_expiry, worker, handle_control, request_results,
}
use zephyr_uds.Routine
use zephyr_uds.Routine.Steps.{
  Pc, idle, calls, marks, stops, answers, is_busy, yields, Seen, accepted, returned, called,
  worker_line, Running, calls_of, by_worker, by_timer, by_request, Step, line, tick, request, other,
  Trace, start, later,
}

-- What the tester is owed: nothing; the final response of the routine that was accepted; that
-- response, with the result that the application gave; and `out_of_turn` behind anything that
-- comes where it must not.
pub data Owed : Type 0 where
  nothing out_of_turn : Owed
  wanted : ℕ → Owed
  known : ℕ → Bool → Owed

-- A final response, which must be the one that is owed.
abbrev pub settle : Owed → ℕ → ℕ → ℕ → Owed
settle (known id success) high low code =
    if (high == u8 (id / 256)) && ((low == u8 id) && (code == (if success then 0x00 else 0x02)))
    then nothing
    else out_of_turn
settle _ high low code = out_of_turn

-- A negative response. ResponsePending must be for a request that is owed its final response.
abbrev pub pend : Owed → ℕ → ℕ → Owed
pend nothing sid code = if code == Nrc.response_pending then out_of_turn else nothing
pend owed sid code = if not (code == Nrc.response_pending) || sid == 0x31 then owed else out_of_turn

abbrev pub next_owed : Owed → Seen → Owed
next_owed nothing (accepted id) = wanted id
next_owed _ (accepted id) = out_of_turn
next_owed (wanted id) (returned success) = known id success
next_owed _ (returned success) = out_of_turn
next_owed owed (called (send (sid ∷ sub ∷ high ∷ low ∷ code ∷ []))) =
    if (sid == 0x71) && (sub == 0x01) then settle owed high low code else owed
next_owed owed (called (nrc sid code)) = pend owed sid code
next_owed owed (called _) = owed

abbrev pub owed_after : Owed → List Seen → Owed
owed_after owed [] = owed
owed_after owed (x ∷ xs) = owed_after (next_owed owed x) xs

owed_after-append :
    (owed : Owed) (xs ys : List Seen)
    → owed_after owed (xs ++ ys) ≡ owed_after (owed_after owed xs) ys
owed_after-append owed [] ys = refl
owed_after-append owed (x ∷ xs) ys = owed_after-append (next_owed owed x) xs ys

abbrev pub has_completed : RoutineStatus → Bool
has_completed completed = true
has_completed _ = false

-- What is owed at each line of the worker, and what holds there.
abbrev pub owed_at : Pc → Routine → Owed
owed_at idle r = nothing
owed_at calls r = wanted r.active_routine_id
owed_at (marks success info) r = known r.active_routine_id success
owed_at _ r = known r.active_routine_id (has_completed r.status)

abbrev pub in_order : Pc → Routine → Bool → Bool
in_order idle r armed = not (is_running r.status) && not armed
in_order calls r armed = is_running r.status && ((r.stored_sid == 0x31) && (r.callbacks && armed))
in_order (marks success info) r armed =
    is_running r.status && ((r.stored_sid == 0x31) && (r.callbacks && armed))
in_order stops r armed =
    not (is_running r.status) && ((r.stored_sid == 0x31) && (r.callbacks && armed))
in_order answers r armed =
    not (is_running r.status) && ((r.stored_sid == 0x31) && (r.callbacks && not armed))

module _ {W : Type 0} (app : App W) where
  abbrev pub InOrder : Running W → Type 0
  InOrder s = in_order s.pc s.statics s.armed ≡ true

  abbrev Kept : Running W → Running W × List Seen → Type 0
  Kept s r = InOrder r.0 × (owed_after (owed_at s.pc s.statics) r.1 ≡ owed_at r.0.pc r.0.statics)

  line-Kept :
      (w : W) (pc : Pc) (r : Routine) (armed : Bool)
      → let s : Running W = record { world = w; pc = pc; statics = r; armed = armed } in
        is_busy pc ≡ true → in_order pc r armed ≡ true → Kept s (by_worker app s)
  unfolding worker_line
  line-Kept w idle r armed b h = cc
  line-Kept w (marks true info) r armed b h = (ground arith, ground arith)
  line-Kept w (marks false info) r armed b h = (ground arith, ground arith)
  line-Kept w pc r armed b h = (ground arith, ground arith)

  tick-Kept :
      (w : W) (pc : Pc) (r : Routine) (armed : Bool)
      → let s : Running W = record { world = w; pc = pc; statics = r; armed = armed } in
        armed ≡ true → in_order pc r armed ≡ true → Kept s (by_timer app s)
  unfolding nrc78_timer_expiry
  tick-Kept w pc r armed a h = (ground arith, ground arith)

  request-Kept :
      (session : SessionType) (w : W) (pc : Pc) (r : Routine) (armed : Bool) (req : Buffer)
      (len : ℕ)
      → let s : Running W = record { world = w; pc = pc; statics = r; armed = armed } in
        yields pc ≡ true
        → req 0 ≡ 0x31
        → in_order pc r armed ≡ true
        → Kept s (by_request app session s req len)
  unfolding handle_control Routine.start request_results
  request-Kept session w idle r armed req len y sid h = (ground arith, ground arith)
  request-Kept session w calls r armed req len y sid h = (ground arith, ground arith)
  request-Kept session w _ r armed req len y sid h = cc

  Step-Kept :
      {s t : Running W} {seen : List Seen} → Step app s seen t → InOrder s → Kept s (t, seen)
  Step-Kept {s} (line b e) h =
      subst (λ x. Kept s x) e (line-Kept s.world s.pc s.statics s.armed b h)
  Step-Kept {s} (tick a e) h =
      subst (λ x. Kept s x) e (tick-Kept s.world s.pc s.statics s.armed a h)
  Step-Kept {s} (request session req len y sid e) h =
      subst (λ x. Kept s x) e (request-Kept session s.world s.pc s.statics s.armed req len y sid h)
  Step-Kept (other w) h = (h, refl)

  Trace-Kept :
      {s t : Running W} {seen : List Seen} → Trace app s seen t → InOrder s → Kept s (t, seen)
  Trace-Kept start h = (h, refl)
  Trace-Kept {s} (later {seen} {more} {t} {u} r st) h =
      let (mid, before) = Trace-Kept r h in
      let (after, turn) = Step-Kept st mid in
      (
        after,
        owed_after-append (owed_at s.pc s.statics) seen more
            ∙ (ap (λ x. owed_after x more) before ∙ turn),
      )

  -- However the worker's lines, the callbacks of the timer, RoutineControl requests of any content
  -- and changes of the world by other code interleave, from a state with no routine running and no
  -- timer: each accepted start gets one final response, with its own identifier and with the result
  -- that the application gave for it, before the next start is accepted; ResponsePending comes only
  -- between the two and names the service; and what is owed in the end is what the worker's line
  -- says, with the timer running exactly from the start to its stop. The work queue is cooperative.
  pub routine_orderly :
      (s t : Running W) (seen : List Seen)
      → s.pc ≡ idle
      → s.statics.status ≢ running
      → s.armed ≡ false
      → Trace app s seen t
      → (owed_after nothing seen ≡ owed_at t.pc t.statics) × (InOrder t)
  routine_orderly s t seen none_yet free quiet r =
      let h : InOrder s = ground arith in
      let (after, turn) = Trace-Kept r h in
      let none_owed : owed_at s.pc s.statics ≡ nothing = ground arith in
      (rw none_owed at turn, after)

  -- The lines of the worker, so many of them with nothing between.
  pub lines : ℕ → Running W → Running W × List Seen
  lines zero s = (s, [])
  lines (suc n) s =
      let (s', seen) = by_worker app s in let (s'', more) = lines n s' in (s'', seen ++ more)

  -- The worker before its first line.
  abbrev pub about_to_run : W → Routine → Bool → Running W
  about_to_run w r armed = record { world = w; pc = calls; statics = r; armed = armed }

  -- Four lines with nothing between are the worker as a whole, and it ends there: the same world,
  -- the same statics and the same calls.
  pub lines-eq-routine_worker :
      (w : W) (r : Routine) (armed : Bool)
      → let (t, seen) = lines 4 (about_to_run w r armed) in
        ((t.world, t.statics, calls_of seen) ≡ worker app w r) × (t.pc ≡ idle)
  unfolding lines worker worker_line
  lines-eq-routine_worker w r armed = ground arith
