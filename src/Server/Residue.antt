-- ===== src/Server/Residue.antt =====
-- src/uds_server.c and the handlers: what the transmission buffer held before a request shows in no
-- frame.
pub mod Life
pub mod Reads
use native.Mathlib.Nat.{zero-add}
use zephyr_uds.Base.{
  ℕ, zero, suc, ◌+◌, ◌-◌, ◌≤◌, ◌≡◌, refl, sym, ap, ◌∙◌, true, Bool-cases, Option-cases, inl, inr,
  some, List, [], ◌∷◌, ltb, length, length-slice, be16, be24, u8, Buffer, copy, store, slice,
  slice-prefixed, slice-copy, arith,
}
use zephyr_uds.Types.{Ret, success, failure, enomem, Out, send}
use zephyr_uds.Platform.{Config, Os, App, Fs, Reading, ok, stored}
use zephyr_uds.Security
use zephyr_uds.Security.{Security}
use zephyr_uds.Security.Guessing
use zephyr_uds.Security.Guessing.{FillsBuffer}
use zephyr_uds.ReadDtc
use zephyr_uds.ReadDtc.Report
use zephyr_uds.DynamicDid
use zephyr_uds.DynamicDid.{DynamicDidMap, Filling}
use zephyr_uds.Server.State.{Server}
use zephyr_uds.Server.Services
use zephyr_uds.Server.Services.{did_header}
use zephyr_uds.Server.Replies.{slice-did_header}

module _ {W : Type 0} where
  abbrev pub wiped : Server W → Server W
  wiped s = record s { tx_buf = λ i. 0 }

  -- The same calls, and the same server but for the transmission buffer.
  abbrev pub Alike : Server W × List Out → Server W × List Out → Type 0
  Alike r r' = (r.1 ≡ r'.1) × (wiped r.0 ≡ wiped r'.0)

-- The hooks that read say how many bytes they wrote.
abbrev pub IsExact : Reading → Type 0
IsExact r = ok r.ret ≡ true → r.len_out ≡ some (length r.written)

module _ {W : Type 0} (app : App W) where
  pub record Exact : Type 0 where
    pub read_did : (w : W) (did max_len : ℕ) → IsExact (app.read_did w did max_len).1
    pub freeze_frame :
        (w : W) (dtc record_num max_len : ℕ)
        → IsExact (app.get_freeze_frame w dtc record_num max_len).1

module _ {W : Type 0} (c : Config) (os : Os W) (app : App W) where
  by_status_mask-Alike :
      (w : W) (fs : Fs) (req : Buffer) (len : ℕ) (tx tx' : Buffer)
      → (ReadDtc.by_status_mask c os app w fs req len tx).out
        ≡ (ReadDtc.by_status_mask c os app w fs req len tx').out
  by_status_mask-Alike w fs req len tx tx' = elim (Bool-cases (ltb len 3)) [
    | inl short ↦ unfold ReadDtc.by_status_mask in ground arith
    | inr long ↦
        let h : 3 ≤ len = ground arith in
        rw
          (
            Report.by_status_mask_lem c os app w fs req len tx h,
            Report.by_status_mask_lem c os app w fs req len tx' h,
          )
          refl
  ]

  by_status_mask-world :
      (w : W) (fs : Fs) (req : Buffer) (len : ℕ) (tx : Buffer)
      → (ReadDtc.by_status_mask c os app w fs req len tx).world ≡ w
  unfolding ReadDtc.by_status_mask
  by_status_mask-world w fs req len tx = ground arith

  stored_data-Alike :
      Exact app
      → (w : W) (req : Buffer) (len : ℕ) (tx tx' : Buffer)
      → let r = ReadDtc.stored_data c os app w req len tx in
        let r' = ReadDtc.stored_data c os app w req len tx' in
        (r.out ≡ r'.out) × (r.world ≡ r'.world)
  unfolding ReadDtc.stored_data
  stored_data-Alike h w req len tx tx' =
      let head : Buffer → Buffer = λ t.
        store (store (store (store (store t 0 (u8 (req 0 + 0x40))) 1 (req 1)) 2 (req 2)) 3 (req 3))
          4 (req 4) in
      let reading =
        (app.get_freeze_frame w (be24 (req 2) (req 3) (req 4)) (req 5) (c.buff_size - 5)).1 in
      ground (
        arith,
        h.freeze_frame w (be24 (req 2) (req 3) (req 4)) (req 5) (c.buff_size - 5),
        slice-prefixed 5 (head tx) reading.written,
        slice-prefixed 5 (head tx') reading.written,
      )

  pub read_dtc-Alike :
      Exact app
      → (s : Server W) (tx req : Buffer) (len : ℕ)
      → Alike
          (Services.read_dtc c os app s req len)
          (Services.read_dtc c os app (record s { tx_buf = tx }) req len)
  unfolding Services.read_dtc ReadDtc.handle
  read_dtc-Alike h s tx req len = elim (Option-cases (app.get_nvs_context s.world)) [
    | inl none_there ↦ ground arith
    | inr (fs, there) ↦
        let (answer, world) = stored_data-Alike h s.world req len s.tx_buf tx in
        ground (
          arith,
          by_status_mask-Alike s.world fs req len s.tx_buf tx,
          by_status_mask-world s.world fs req len s.tx_buf,
          by_status_mask-world s.world fs req len tx,
          answer,
          world,
        )
  ]

  request_seed-Alike :
      FillsBuffer c os app
      → (w : W) (s : Security) (req : Buffer) (len : ℕ) (tx tx' : Buffer)
      → length s.generated_seed ≡ c.seed_size
      → let (t, r) = Security.request_seed c os w s req len tx in
        let (t', r') = Security.request_seed c os w s req len tx' in
        (t ≡ t') × (r.out ≡ r'.out) × (r.world ≡ r'.world)
  unfolding Security.request_seed
  request_seed-Alike fills w s req len tx tx' size =
      let (w', s') = Security.generate_seed c os w s in
      let whole = Guessing.length-generate_seed c os app fills w s size in
      let head : Buffer → Buffer = λ t. store (store t 0 (u8 (req 0 + 0x40))) 1 (req 1) in
      ground (
        arith,
        rw whole at (slice-prefixed 2 (head tx) s'.generated_seed),
        rw whole at (slice-prefixed 2 (head tx') s'.generated_seed),
      )

  pub security_access-Alike :
      FillsBuffer c os app
      → (s : Server W) (tx req : Buffer) (len : ℕ) → length s.security.generated_seed ≡ c.seed_size
      → Alike
          (Services.security_access c os app s req len)
          (Services.security_access c os app (record s { tx_buf = tx }) req len)
  unfolding Services.security_access Security.handle_request Security.send_key Security.grant
      Security.count_failure
  security_access-Alike fills s tx req len size =
      let (same, answer, world) =
        request_seed-Alike fills s.world s.security req len s.tx_buf tx size in
      ground (arith, same, answer, world)
