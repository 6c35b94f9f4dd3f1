-- ===== src/Tests/RoutineCases.antt =====
-- A routine at concrete inputs, line by line.
use zephyr_uds.Base.{◌≡◌, ◌≢◌, refl, true, false, List, [], ◌∷◌, Buffer, holding}
use zephyr_uds.Types.{
  running, extended_session, nrc, work_submit, timer_start, routine_nrc78_timer, routine_work,
}
use zephyr_uds.Types.Nrc
use zephyr_uds.Routine.{Routine, worker, start, handle_control, power_on, nrc78_timer_expiry}
use zephyr_uds.Routine.Steps.{
  Running, Seen, accepted, returned, called, calls, stops, calls_of, worker_line, Trace, later,
  line, tick, request,
}
use zephyr_uds.Routine.Steps
use zephyr_uds.Routine.Interleaving.{
  nothing, known, owed_after, InOrder, routine_orderly, lines, about_to_run,
  lines-eq-routine_worker,
}
use zephyr_uds.Tests.Bench.{World, blank, bench_app}

abbrev at_rest : Running World
at_rest = record { world = blank; pc = Steps.idle; statics = power_on; armed = false }

abbrev start_message : Buffer
start_message = holding (0x31 ∷ 0x01 ∷ 0xFF ∷ 0x00 ∷ [])

abbrev started : Routine
started = record {
  status = running;
  exit_info = 0;
  active_routine_id = 0xFF00;
  stored_sid = 0x31;
  callbacks = true;
}

-- A start, the timer, the application's hook, and a start that is refused while the hook runs.
abbrev seen_then : List Seen
seen_then =
    accepted 0xFF00
    ∷ called (timer_start routine_nrc78_timer 0 20)
    ∷ called (work_submit routine_work)
    ∷ called (nrc 0x31 Nrc.response_pending)
    ∷ called (nrc 0x31 Nrc.conditions_not_correct)
    ∷ returned true
    ∷ []

abbrev routine_then : Running World
routine_then = record { world = blank; pc = Steps.marks true 0; statics = started; armed = true }

routine_steps : Trace bench_app at_rest seen_then routine_then
unfolding power_on handle_control start worker_line nrc78_timer_expiry
routine_steps =
    later
      (later
        (later (later Steps.start (request extended_session start_message 4 refl refl refl))
          (tick refl refl))
        (request extended_session start_message 4 refl refl refl))
      (line refl refl)

at_rest-free : at_rest.statics.status ≢ running
unfolding power_on
at_rest-free e = cc

routine_orderly_example :
    (owed_after nothing seen_then ≡ known 0xFF00 true) × (InOrder bench_app routine_then)
routine_orderly_example =
    routine_orderly bench_app at_rest routine_then seen_then refl at_rest-free refl routine_steps

routine_lines :
    let (t, seen) = lines bench_app 4 (about_to_run bench_app blank started true) in
    ((t.world, t.statics, calls_of seen) ≡ worker bench_app blank started) × (t.pc ≡ Steps.idle)
routine_lines = lines-eq-routine_worker bench_app blank started true
