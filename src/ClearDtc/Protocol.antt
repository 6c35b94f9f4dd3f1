-- ===== src/ClearDtc/Protocol.antt =====
-- src/uds_clear_dtc.c: the frames of one clearing, from the request to the confirmation.
use zephyr_uds.Base.{ℕ, zero, suc, ◌≡◌, refl, true, false, List, [], ◌∷◌, ◌++◌, be24, Buffer, arith}
use zephyr_uds.Types.{
  Out, send, nrc, timer_start, timer_stop, work_submit, sleep_ms, nrc78_timer, clear_dtc_work,
}
use zephyr_uds.Types.Nrc
use zephyr_uds.Platform.{Os, App}
use zephyr_uds.ClearDtc.{ClearDtc, nrc78_period_ms, nrc78_timer_expiry, worker, handle}

-- The calls of the timer's callback, when it is called the given number of times in a row.
pub expiries : ℕ → ClearDtc → List Out
expiries zero d = []
expiries (suc n) d = nrc78_timer_expiry d ++ expiries n d

-- As many rounds of ResponsePending and of starting the timer again.
pub pendings : ℕ → ℕ → List Out
pendings sid zero = []
pendings sid (suc n) =
    nrc sid Nrc.response_pending ∷ timer_start nrc78_timer nrc78_period_ms 0 ∷ pendings sid n

expiries_running :
    (n : ℕ) (d : ClearDtc)
    → d.worker_done ≡ false
    → d.callbacks ≡ true
    → expiries n d ≡ pendings d.stored_sid n
unfolding expiries pendings nrc78_timer_expiry
expiries_running zero d h k = refl
expiries_running (suc n) d h k = ground (arith, expiries_running n d h k)

expiries_done : (n : ℕ) (d : ClearDtc) → d.worker_done ≡ true → expiries n d ≡ []
unfolding expiries nrc78_timer_expiry
expiries_done zero d h = refl
expiries_done (suc n) d h = ground (arith, expiries_done n d h)

module _ {W : Type 0} (os : Os W) (app : App W) where
  -- A clear request of four bytes, when no clearing is pending, is answered by ResponsePending for
  -- as often as its timer expires before the worker runs; by exactly one positive response when
  -- the worker has run, be the application's clearing a success or a failure, or the file system
  -- missing; and by nothing behind that, however often the timer's callback is still called.
  pub clearing_protocol :
      (w v : W) (d : ClearDtc) (req : Buffer) (len before after : ℕ)
      → len ≡ 4
      → os.work_is_pending w clear_dtc_work ≡ false
      → let (started, calls) = handle os w d req len in
        let (v', done, confirmed) = worker app v started in
        (calls ≡ timer_start nrc78_timer nrc78_period_ms 0 ∷ work_submit clear_dtc_work ∷ [])
        × (started.target_dtc_group ≡ be24 (req 1) (req 2) (req 3))
        × (expiries before started ≡ pendings (req 0) before)
        × (confirmed ≡ timer_stop nrc78_timer ∷ sleep_ms 10 ∷ send (0x54 ∷ []) ∷ [])
        × (expiries after done ≡ [])
  unfolding handle worker
  clearing_protocol w v d req len before after four free =
      let started = (handle os w d req len).0 in
      let done = (worker app v started).1 in
      (
        ground arith,
        ground arith,
        ground (arith, expiries_running before started),
        ground arith,
        expiries_done after done refl,
      )
