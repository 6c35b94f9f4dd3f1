-- ===== src/Timing.antt =====
-- k_timer_start and k_timer_stop of Zephyr, as the files under src call them: whether a timer runs
-- behind a list of calls.
use zephyr_uds.Base.{Bool, true, false, List, [], ◌∷◌, ◌++◌, if◌then◌else◌, ◌≡◌, refl}
use zephyr_uds.Types.{
  Timer, s3_timer, lockout_timer, nrc78_timer, routine_nrc78_timer, Out, timer_start, timer_stop,
}

-- The tests for one timer.
abbrev pub is_s3 : Timer → Bool
is_s3 s3_timer = true
is_s3 _ = false

abbrev pub is_lockout : Timer → Bool
is_lockout lockout_timer = true
is_lockout _ = false

abbrev pub is_nrc78 : Timer → Bool
is_nrc78 nrc78_timer = true
is_nrc78 _ = false

abbrev pub is_routine_nrc78 : Timer → Bool
is_routine_nrc78 routine_nrc78_timer = true
is_routine_nrc78 _ = false

-- Whether the timer of the test runs behind one call, and behind a list of calls.
abbrev pub arm : (Timer → Bool) → Bool → Out → Bool
arm is_it armed (timer_start t duration period) = if is_it t then true else armed
arm is_it armed (timer_stop t) = if is_it t then false else armed
arm is_it armed _ = armed

abbrev pub armed_after : (Timer → Bool) → Bool → List Out → Bool
armed_after is_it armed [] = armed
armed_after is_it armed (o ∷ os) = armed_after is_it (arm is_it armed o) os

pub armed_after-append :
    (is_it : Timer → Bool) (b : Bool) (xs ys : List Out)
    → armed_after is_it b (xs ++ ys) ≡ armed_after is_it (armed_after is_it b xs) ys
armed_after-append is_it b [] ys = refl
armed_after-append is_it b (x ∷ xs) ys = armed_after-append is_it (arm is_it b x) xs ys
