-- ===== src/Reset.antt =====
-- src/uds_reset.c: ECUReset (0x11), which reboots from a timer, after the response.
pub mod Protocol
use zephyr_uds.Base.{◌+◌, ◌∷◌, ℕ, List, [], ltb, ◌==◌, if◌then◌else◌, u8, Buffer, store, slice}
use zephyr_uds.Types.{Reboot, cold, warm, Out, send, timer_init, timer_start, reboot, reset_timer}
use zephyr_uds.Types.Nrc
use zephyr_uds.Platform.{Reply, refuse}

abbrev pub reset_delay_ms : ℕ
reset_delay_ms = 50

-- The state is `chosen_reset_type`; its initial value.
unfoldable pub power_on : Reboot
power_on = cold

-- uds_reset_init
unfoldable pub init : List Out
init = timer_init reset_timer ∷ []

-- reset_timer_expiry_cb
unfoldable pub reset_timer_expiry : Reboot → List Out
reset_timer_expiry chosen = reboot chosen ∷ []

-- The part of uds_reset_handle behind the switch.
unfoldable pub respond : {W : Type 0} → W → Buffer → Buffer → Reply W
respond w req tx =
    let tx' = store (store tx 0 (u8 (req 0 + 0x40))) 1 (req 1) in
    record {
      world = w;
      tx_buf = tx';
      out = send (slice 0 2 tx') ∷ timer_start reset_timer reset_delay_ms 0 ∷ [];
    }

-- uds_reset_handle
unfoldable pub handle : {W : Type 0} → W → Reboot → Buffer → ℕ → Buffer → Reboot × Reply W
unfolding respond
handle w chosen req len tx =
    if ltb len 2
    then (chosen, refuse w tx (req 0) Nrc.incorrect_length_or_invalid_format)
    else if req 1 == 0x01
    then (cold, respond w req tx)
    else if req 1 == 0x03
    then (warm, respond w req tx)
    else (chosen, refuse w tx (req 0) Nrc.sub_function_not_supported)
