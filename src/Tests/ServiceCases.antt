-- ===== src/Tests/ServiceCases.antt =====
-- The handlers of the other services at concrete inputs.
use zephyr_uds.Base.{
  ◌↔◌, ◌+◌, ◌≡◌, ◌≢◌, ◌⊎◌, refl, true, some, List, [], ◌∷◌, Buffer, holding, slice, arith,
}
use zephyr_uds.Types.{
  unlocked, extended_session, success, cold, warm, Out, send, timer_start, timer_stop, work_submit,
  sleep_ms, reboot, nrc78_timer, clear_dtc_work, reset_timer,
}
use zephyr_uds.Platform.{default_config}
use zephyr_uds.ClearDtc
use zephyr_uds.ClearDtc.Protocol.{expiries, pendings, clearing_protocol}
use zephyr_uds.ReadDtc
use zephyr_uds.ReadDtc.{max_entries}
use zephyr_uds.ReadDtc.Report.{matching_bytes, stored_dtcs}
use zephyr_uds.ReadDtc.Answer.{answer, handle-eq-answer}
use zephyr_uds.Periodic.{Periodic}
use zephyr_uds.Reset
use zephyr_uds.Reset.{reset_delay_ms, reset_timer_expiry}
use zephyr_uds.Reset.Protocol.{reset_protocol}
use zephyr_uds.DataStorage
use zephyr_uds.DataStorage.{vin_size, set_vin, get_vin}
use zephyr_uds.DataStorage.Vin.{Stores, set_vin-get_vin}
use zephyr_uds.WriteDid
use zephyr_uds.WriteDid.Accepted.{WriteAllowed, write, written_iff}
use zephyr_uds.IoControl
use zephyr_uds.IoControl.Accepted.{ControlAllowed, control, controlled_iff}
use zephyr_uds.Tests.Bench.{World, blank, put, bench_os, bench_app, zeros}

abbrev clear_message : Buffer
clear_message = holding (0x14 ∷ 0xFF ∷ 0xFF ∷ 0xFF ∷ [])

clearing_protocol_example :
    let (started, calls) = ClearDtc.handle bench_os blank ClearDtc.power_on clear_message 4 in
    let (v, done, confirmed) = ClearDtc.worker bench_app blank started in
    (calls ≡ timer_start nrc78_timer ClearDtc.nrc78_period_ms 0 ∷ work_submit clear_dtc_work ∷ [])
    × (started.target_dtc_group ≡ 0xFFFFFF)
    × (expiries 2 started ≡ pendings 0x14 2)
    × (confirmed ≡ timer_stop nrc78_timer ∷ sleep_ms 10 ∷ send (0x54 ∷ []) ∷ [])
    × (expiries 3 done ≡ [])
clearing_protocol_example =
    clearing_protocol bench_os bench_app blank blank ClearDtc.power_on clear_message 4 2 3 refl refl

abbrev routine_message : Buffer
routine_message = holding (0x31 ∷ 0x01 ∷ 0x02 ∷ 0x03 ∷ [])

abbrev mask_request : Buffer
mask_request = holding (0x19 ∷ 0x02 ∷ 0x08 ∷ [])

abbrev one_dtc : World
one_dtc =
    put (put blank ReadDtc.dtc_start_id (1 ∷ 2 ∷ 3 ∷ 0x08 ∷ [])) (ReadDtc.dtc_start_id + 1)
      (4 ∷ 5 ∷ 6 ∷ 0x01 ∷ [])

-- The record 1 of a DTC.
abbrev record_request : Buffer
record_request = holding (0x19 ∷ 0x04 ∷ 1 ∷ 2 ∷ 3 ∷ 1 ∷ [])

handle-eq-answer_example :
    (ReadDtc.handle default_config bench_os bench_app one_dtc record_request 6 zeros).out
    ≡ send (0x59 ∷ 0x04 ∷ 1 ∷ 2 ∷ 3 ∷ 10 ∷ 11 ∷ 12 ∷ 13 ∷ []) ∷ []
handle-eq-answer_example =
    handle-eq-answer default_config bench_os bench_app one_dtc record_request 6 zeros (λ fine. refl)

-- By mask, one of the two stored.
one_reported :
    answer default_config bench_os bench_app one_dtc mask_request 3
    ≡ send (0x59 ∷ 0x02 ∷ 0x09 ∷ 1 ∷ 2 ∷ 3 ∷ 0x08 ∷ [])
unfolding matching_bytes stored_dtcs ReadDtc.whole_dtc
one_reported = refl

abbrev two_dids : Periodic
two_dids = record {
  active_periodic_dids = holding (0x21 ∷ 0x22 ∷ []);
  active_did_count = 2;
  callback = true;
  periodic_tx_buf = zeros;
  data_len = 0;
}

abbrev periodic_message : Buffer
periodic_message = holding (0x2A ∷ 0x01 ∷ 0x23 ∷ [])

abbrev reset_message : Buffer
reset_message = holding (0x11 ∷ 0x03 ∷ [])

reset_protocol_example :
    let (chosen, r) = Reset.handle blank cold reset_message 2 zeros in
    ◌≡◌ {A = List Out × List Out}
      (r.out, reset_timer_expiry chosen)
      (send (0x51 ∷ 0x03 ∷ []) ∷ timer_start reset_timer reset_delay_ms 0 ∷ [], reboot warm ∷ [])
reset_protocol_example = reset_protocol blank cold reset_message 2 zeros (omega arith)

abbrev new_vin : Buffer
new_vin i = i + 65

bench-Stores : Stores bench_os bench_app
bench-Stores = record { stores = λ w fs vin fine. refl; same_context = λ w fs bytes. refl }

set_vin-get_vin_example :
    let (w, vin, ret) = set_vin bench_os bench_app blank zeros (some new_vin) 17 in
    ((ret ≡ success)
      × (17 ≡ vin_size)
      × (get_vin vin ≡ slice 0 vin_size new_vin)
      × (get_vin (DataStorage.init bench_os bench_app w zeros) ≡ slice 0 vin_size new_vin))
    ⊎ ((ret ≢ success) × (vin ≡ zeros))
set_vin-get_vin_example =
    set_vin-get_vin bench_os bench_app bench-Stores blank zeros new_vin 17 zeros

abbrev write_message : Buffer
write_message = holding (0x2E ∷ 0xF1 ∷ 0x90 ∷ 7 ∷ 8 ∷ [])

written_iff_example :
    let r = WriteDid.handle bench_app extended_session unlocked blank write_message 5 zeros in
    ((r.out ≡ send (0x6E ∷ 0xF1 ∷ 0x90 ∷ []) ∷ []) ↔ (
      WriteAllowed bench_app extended_session unlocked 5
      × ((write bench_app blank write_message 5).1 ≡ success)))
    × (r.world ≡ (write bench_app blank write_message 5).0)
written_iff_example = written_iff bench_app extended_session unlocked blank write_message 5 zeros

abbrev control_message : Buffer
control_message = holding (0x2F ∷ 0xF1 ∷ 0x90 ∷ 0x03 ∷ 9 ∷ [])

controlled_iff_example :
    let r = IoControl.handle bench_app extended_session unlocked blank control_message 5 zeros in
    ((r.out ≡ send (0x6F ∷ 0xF1 ∷ 0x90 ∷ 0x03 ∷ 1 ∷ []) ∷ [])
      ↔ (ControlAllowed bench_app extended_session unlocked 5 × (success ≡ success)))
    × (r.world ≡ (control bench_app blank control_message 5).0)
controlled_iff_example =
    controlled_iff bench_app extended_session unlocked blank control_message 5 zeros
