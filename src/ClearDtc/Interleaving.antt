-- ===== src/ClearDtc/Interleaving.antt =====
-- src/uds_clear_dtc.c: clearing under every interleaving of the worker's lines, the timer and
-- requests.
use mathlib.Core.Path.{subst}
use zephyr_uds.Base.{
  zero, suc, ℕ, ◌≡◌, refl, ap, ◌∙◌, Bool, true, false, not, ◌&&◌, Option, none, some, List, [], ◌∷◌,
  ◌++◌, ◌==◌, if◌then◌else◌, Buffer, arith,
}
use zephyr_uds.Types.{Out, send, nrc, work_submit, clear_dtc_work}
use zephyr_uds.Types.Nrc
use zephyr_uds.Platform.{Os, App}
use zephyr_uds.ClearDtc.{ClearDtc, nrc78_timer_expiry, worker, handle}
use zephyr_uds.ClearDtc.Steps.{
  Pc, idle, clears, marks, stops, sleeps, confirms, is_busy, worker_line, Clearing, by_worker,
  by_timer, by_request, Step, line, tick, request, other, Trace, start, later,
}

-- What the tester sees of a clearing: `some true` while a request is accepted and not confirmed,
-- and `none` behind a call that comes out of turn: a confirmation or a ResponsePending with no such
-- request, or an acceptance while there is one.
abbrev pub next_owed : Option Bool → Out → Option Bool
next_owed (some false) (work_submit work) = some true
next_owed (some true) (work_submit work) = none
next_owed (some false) (send bytes) = none
next_owed (some true) (send bytes) = some false
next_owed (some false) (nrc sid code) = if code == Nrc.response_pending then none else some false
next_owed owed _ = owed

abbrev pub owed_after : Option Bool → List Out → Option Bool
owed_after owed [] = owed
owed_after owed (o ∷ os) = owed_after (next_owed owed o) os

owed_after-append :
    (owed : Option Bool) (xs ys : List Out)
    → owed_after owed (xs ++ ys) ≡ owed_after (owed_after owed xs) ys
owed_after-append owed [] ys = refl
owed_after-append owed (x ∷ xs) ys = owed_after-append (next_owed owed x) xs ys

-- What holds at each line of the worker.
abbrev pub in_order : Pc → ClearDtc → Bool → Bool
in_order idle d armed = not armed
in_order clears d armed = not d.worker_done && (d.callbacks && armed)
in_order marks d armed = not d.worker_done && (d.callbacks && armed)
in_order stops d armed = d.worker_done && d.callbacks
in_order sleeps d armed = d.worker_done && (d.callbacks && not armed)
in_order confirms d armed = d.worker_done && (d.callbacks && not armed)

module _ {W : Type 0} (os : Os W) (app : App W) where
  abbrev pub InOrder : Clearing W → Type 0
  InOrder s = in_order s.pc s.statics s.armed ≡ true

  abbrev Kept : Clearing W → Clearing W × List Out → Type 0
  Kept s r = InOrder r.0 × (owed_after (some (is_busy s.pc)) r.1 ≡ some (is_busy r.0.pc))

  line-Kept :
      (w : W) (pc : Pc) (d : ClearDtc) (armed : Bool)
      → let s : Clearing W = record { world = w; pc = pc; statics = d; armed = armed } in
        is_busy pc ≡ true → in_order pc d armed ≡ true → Kept s (by_worker os app s)
  unfolding worker_line
  line-Kept w idle d armed b h = cc
  line-Kept w pc d armed b h = (ground arith, ground arith)

  tick-Kept : (s : Clearing W) → s.armed ≡ true → InOrder s → Kept s (by_timer os app s)
  unfolding nrc78_timer_expiry
  tick-Kept s a h = (ground arith, ground arith)

  request-Kept :
      (s : Clearing W) (req : Buffer) (len : ℕ)
      → os.work_is_pending s.world clear_dtc_work ≡ is_busy s.pc
      → InOrder s
      → Kept s (by_request os app s req len)
  unfolding handle
  request-Kept s req len pending h = (ground arith, ground arith)

  Step-Kept :
      {s t : Clearing W} {calls : List Out} → Step os app s calls t → InOrder s → Kept s (t, calls)
  Step-Kept {s} (line b e) h =
      subst (λ x. Kept s x) e (line-Kept s.world s.pc s.statics s.armed b h)
  Step-Kept {s} (tick a e) h = subst (λ x. Kept s x) e (tick-Kept s a h)
  Step-Kept {s} (request req len p e) h = subst (λ x. Kept s x) e (request-Kept s req len p h)
  Step-Kept (other w) h = (h, refl)

  Trace-Kept :
      {s t : Clearing W} {calls : List Out} → Trace os app s calls t → InOrder s → Kept s (t, calls)
  Trace-Kept start h = (h, refl)
  Trace-Kept {s} (later {calls} {more} {t} {u} r st) h =
      let (mid, before) = Trace-Kept r h in
      let (after, turn) = Step-Kept st mid in
      (
        after,
        owed_after-append (some (is_busy s.pc)) calls more
            ∙ (ap (λ x. owed_after x more) before ∙ turn),
      )

  -- However the worker's lines, the callbacks of the timer, requests of any content and changes of
  -- the world by other code interleave, from a state with no clearing under way and no timer
  -- running: the tester sees one confirmation for each accepted request, before the next is
  -- accepted, and ResponsePending only between the two; a confirmation is owed exactly while the
  -- worker is under way; and the timer is stopped when it is not. The work item is pending while it
  -- is under way.
  pub clearing_orderly :
      (s t : Clearing W) (calls : List Out)
      → s.pc ≡ idle
      → s.armed ≡ false
      → Trace os app s calls t
      → (owed_after (some false) calls ≡ some (is_busy t.pc)) × (InOrder t)
  clearing_orderly s t calls none_yet quiet r =
      let h : InOrder s = ground arith in
      let (after, seen) = Trace-Kept r h in
      let free : is_busy s.pc ≡ false = ground arith in (rw free at seen, after)

  -- The lines of the worker, so many of them with nothing between.
  lines : ℕ → Clearing W → Clearing W × List Out
  lines zero s = (s, [])
  lines (suc n) s =
      let (s', calls) = by_worker os app s in let (s'', more) = lines n s' in (s'', calls ++ more)

  -- The lines of Steps, with nothing between, are the worker that the machine runs.
  lines-eq-worker :
      (s : Clearing W)
      → s.pc ≡ clears
      → let (t, calls) = lines 5 s in
        ((t.world, t.statics, calls) ≡ worker app s.world s.statics) × (t.pc ≡ idle)
  unfolding lines worker worker_line
  lines-eq-worker s e = ground arith
