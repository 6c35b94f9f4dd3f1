-- ===== src/Reset/Protocol.antt =====
-- src/uds_reset.c: from the request to the reboot.
use zephyr_uds.Base.{
  Option, some, none, List, ◌==◌, if◌then◌else◌, ℕ, ◌≤◌, ◌≡◌, [], ◌∷◌, Buffer, u8, ◌+◌, arith,
}
use zephyr_uds.Types.{Out, Reboot, cold, warm, send, nrc, reboot, timer_start, reset_timer}
use zephyr_uds.Types.Nrc
use zephyr_uds.Reset.{reset_delay_ms, reset_timer_expiry, handle}

-- The reboot that a type asks for.
abbrev pub requested : ℕ → Option Reboot
requested reset_type =
    if reset_type == 0x01 then some cold else if reset_type == 0x03 then some warm else none

-- The reboot that is chosen behind a request, and the calls.
abbrev pub outcome : Reboot → ℕ → ℕ → Option Reboot → List Out × List Out
outcome chosen sid reset_type (some r) = (
  send (u8 (sid + 0x40) ∷ reset_type ∷ []) ∷ timer_start reset_timer reset_delay_ms 0 ∷ [],
  reboot r ∷ [],
)
outcome chosen sid reset_type none =
    (nrc sid Nrc.sub_function_not_supported ∷ [], reboot chosen ∷ [])

-- A reset request of at least two bytes is answered positively, and the timer started behind the
-- answer, exactly for the types 0x01 and 0x03; the expiry of the timer then reboots cold for 0x01
-- and warm for 0x03. For any other type the request is refused, no timer is started, and an expiry
-- still reboots as an earlier request chose.
pub reset_protocol :
    {W : Type 0} (w : W) (chosen : Reboot) (req : Buffer) (len : ℕ) (tx : Buffer)
    → 2 ≤ len
    → let (chosen', r) = handle w chosen req len tx in
      (r.out, reset_timer_expiry chosen') ≡ outcome chosen (req 0) (req 1) (requested (req 1))
unfolding handle reset_timer_expiry
reset_protocol w chosen req len tx h = ground arith
