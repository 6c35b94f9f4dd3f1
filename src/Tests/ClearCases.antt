-- ===== src/Tests/ClearCases.antt =====
-- A clearing at concrete inputs.
use zephyr_uds.Base.{◌≡◌, refl, true, false, some, List, [], ◌∷◌, Buffer, holding}
use zephyr_uds.Types.{Out, nrc, work_submit, timer_start, nrc78_timer, clear_dtc_work}
use zephyr_uds.Types.Nrc
use zephyr_uds.ClearDtc.{ClearDtc, handle, power_on, nrc78_timer_expiry}
use zephyr_uds.ClearDtc.Steps.{
  Clearing, idle, stops, worker_line, Trace, start, later, line, tick, request,
}
use zephyr_uds.ClearDtc.Interleaving.{owed_after, InOrder, clearing_orderly}
use zephyr_uds.Tests.Bench.{World, blank, bench_os, bench_app}

abbrev quiet : Clearing World
quiet = record { world = blank; pc = idle; statics = power_on; armed = false }

abbrev clear_message : Buffer
clear_message = holding (0x14 ∷ 0xFF ∷ 0xFF ∷ 0xFF ∷ [])

abbrev statics_then : ClearDtc
statics_then = (handle bench_os blank power_on clear_message 4).0

-- A request, the timer before the worker's first line, and its first two lines.
abbrev calls_then : List Out
calls_then =
    timer_start nrc78_timer 20 0
    ∷ work_submit clear_dtc_work
    ∷ nrc 0x14 Nrc.response_pending
    ∷ timer_start nrc78_timer 20 0
    ∷ []

abbrev state_then : Clearing World
state_then = record {
  world = blank;
  pc = stops;
  statics = record statics_then { worker_done = true };
  armed = true;
}

interleaved : Trace bench_os bench_app quiet calls_then state_then
unfolding handle worker_line nrc78_timer_expiry
interleaved =
    later
      (later (later (later start (request clear_message 4 refl refl)) (tick refl refl))
        (line refl refl))
      (line refl refl)

clearing_orderly_example :
    (owed_after (some false) calls_then ≡ some true) × (InOrder bench_os bench_app state_then)
clearing_orderly_example =
    clearing_orderly bench_os bench_app quiet state_then calls_then refl refl interleaved
