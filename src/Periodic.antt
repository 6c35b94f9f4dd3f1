-- ===== src/Periodic.antt =====
-- src/uds_periodic.c: ReadDataByPeriodicIdentifier (0x2A) and the thread that samples.
pub mod Registry
pub mod Sampling
use zephyr_uds.Base.{
  ℕ, zero, suc, ◌+◌, Bool, true, false, not, ◌||◌, List, [], ◌∷◌, ltb, leb, ◌==◌, if◌then◌else◌, u8,
  Buffer, store, copy, slice,
}
use zephyr_uds.Types.{Out, send, nrc}
use zephyr_uds.Types.Nrc
use zephyr_uds.Platform.{App, ok, stored}

-- The statics of the file, and the locals of the thread, which live as long as it does.
-- `callback` says that `periodic_send_cb` is not NULL.
pub record Periodic : Type 0 where
  pub active_periodic_dids : Buffer
  pub active_did_count : ℕ
  pub callback : Bool
  pub periodic_tx_buf : Buffer
  pub data_len : ℕ

-- `stack` is what the thread's locals hold at first.
unfoldable pub power_on : Buffer → ℕ → Periodic
power_on stack data_len = record {
  active_periodic_dids = λ i. 0;
  active_did_count = 0;
  callback = false;
  periodic_tx_buf = stack;
  data_len = data_len;
}

module _ {W : Type 0} (app : App W) where
  -- One identifier: a round of the inner loop of uds_periodic_thread_handler.
  unfoldable pub sample : ℕ → W → Periodic → W × Periodic × List Out
  sample i w p =
      let did = p.active_periodic_dids i in
      let (w', reading) = app.get_periodic_did w did in
      let tx' = copy (store (store p.periodic_tx_buf 0 0x2A) 1 did) 2 reading.written in
      let data_len' = stored reading.len_out p.data_len in
      (
        w',
        record p { periodic_tx_buf = tx'; data_len = data_len' },
        (if ok reading.ret then send (slice 0 (2 + data_len') tx') ∷ [] else []),
      )

  -- The rounds left, from `i` on, behind the calls made so far.
  unfoldable pub sample_all : ℕ → ℕ → W → Periodic → W × Periodic × List (List Out)
  sample_all zero i w p = (w, p, [])
  sample_all (suc rounds) i w p =
      let (w', p', sent) = sample i w p in
      let (w'', p'', later) = sample_all rounds (suc i) w' p' in (w'', p'', sent ∷ later)

  -- One round of the endless loop, behind the sleep.
  unfoldable pub thread_round : W → Periodic → W × Periodic × List (List Out)
  thread_round w p =
      if p.active_did_count == 0 || not p.callback
      then (w, p, [])
      else sample_all p.active_did_count 0 w p

-- uds_handle_periodic_request. A mode other than 0x01 and 0x04 gets no answer.
unfoldable pub handle : Periodic → Buffer → ℕ → Periodic × List Out
handle before req len =
    let p = record before { callback = true } in
    if ltb len 3
    then (p, nrc (req 0) Nrc.incorrect_length_or_invalid_format ∷ [])
    else if req 1 == 0x04
    then (record p { active_did_count = 0 }, send (0x6A ∷ req 1 ∷ []) ∷ [])
    else if req 1 == 0x01
    then (if leb 5 p.active_did_count then (p, nrc (req 0) Nrc.request_out_of_range ∷ []) else (
      record p {
        active_periodic_dids = store p.active_periodic_dids p.active_did_count (req 2);
        active_did_count = u8 (p.active_did_count + 1);
      },
      send (0x6A ∷ req 1 ∷ req 2 ∷ []) ∷ [],
    ))
    else (p, [])
