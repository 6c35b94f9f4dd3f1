-- ===== src/Server/Residue/Reads.antt =====
-- src/uds_dynamic_did.c and case 0x22 of src/uds_server.c: what the transmission buffer held before
-- a read shows in no answer.
use native.Mathlib.Nat.{zero-add}
use zephyr_uds.Base.{
  ℕ, zero, suc, ◌+◌, ◌-◌, ◌≤◌, ◌≡◌, refl, sym, ap, ◌∙◌, true, Bool-cases, inl, inr, [], ◌∷◌,
  length-slice, be16, u8, Buffer, copy, slice, slice-copy, arith,
}
use zephyr_uds.Types.{Ret, success, failure, enomem, send}
use zephyr_uds.Platform.{Config, Os, App, ok, stored}
use zephyr_uds.DynamicDid
use zephyr_uds.DynamicDid.{DynamicDidMap, Filling}
use zephyr_uds.Server.State.{Server}
use zephyr_uds.Server.Services
use zephyr_uds.Server.Services.{did_header}
use zephyr_uds.Server.Replies.{slice-did_header}
use zephyr_uds.Server.Residue.{Alike, Exact}

module _ {W : Type 0} (c : Config) (os : Os W) (app : App W) where
  -- What a dynamic identifier gives, into one buffer and into another.
  abbrev start : W → Buffer → Filling W
  start w buf = record { world = w; source = os.stack w; filled = buf; total_len = 0 }

  copy_entries-Alike :
      (w : W) (m : DynamicDidMap) (rounds : ℕ) (buf buf' : Buffer)
      → rounds ≤ 1
      → let t = DynamicDid.copy_entries app 3 m rounds 0 (start w buf) in
        let t' = DynamicDid.copy_entries app 3 m rounds 0 (start w buf') in
        (t.world ≡ t'.world)
        × (t.total_len ≡ t'.total_len)
        × (slice 3 t.total_len t.filled ≡ slice 3 t.total_len t'.filled)
  unfolding DynamicDid.copy_entries DynamicDid.copy_entry
  copy_entries-Alike w m zero buf buf' h = (refl, refl, refl)
  copy_entries-Alike w m (suc zero) buf buf' h =
      let e = m.entries 0 in
      let (w', reading) = app.read_did w e.source_did 64 in
      let bytes = slice e.position e.length (copy (os.stack w) 1 reading.written) in
      let size = length-slice e.position e.length (copy (os.stack w) 1 reading.written) in
      elim (Bool-cases (ok reading.ret)) [
        | inl fine ↦ rw fine (
          refl,
          refl,
          rw zero-add
              (rw size at (slice-copy buf 3 bytes) ∙ sym (rw size at (slice-copy buf' 3 bytes))),
        )
        | inr failed ↦ rw failed (refl, refl, refl)
      ]
  copy_entries-Alike w m (suc (suc rounds)) buf buf' h =
      let impossible : ⊥ = omega (arith, h) in absurd impossible

  read_payload-Alike :
      (w : W) (m : DynamicDidMap) (did : ℕ) (buf buf' : Buffer)
      → m.entry_count ≤ 1
      → let (ret, w', tx, got) = DynamicDid.read_payload os app w m did buf 3 0 in
        let (ret', w'', tx', got') = DynamicDid.read_payload os app w m did buf' 3 0 in
        (ret ≡ ret') × (w' ≡ w'') × (got ≡ got') × (slice 3 got tx ≡ slice 3 got tx')
  unfolding DynamicDid.read_payload
  read_payload-Alike w m did buf buf' h =
      let (world, size, bytes) = copy_entries-Alike w m m.entry_count buf buf' h in
      ground (arith, world, size, bytes)

  answer_read-Alike :
      (s : Server W) (tx req : Buffer) (ret : Ret) (d_len : ℕ)
      → (ok ret ≡ true → slice 3 d_len s.tx_buf ≡ slice 3 d_len tx)
      → Alike
          (Services.answer_read s req ret d_len)
          (Services.answer_read (record s { tx_buf = tx }) req ret d_len)
  unfolding Services.answer_read
  answer_read-Alike s tx req success d_len h = (
    ap (λ bytes. send bytes ∷ [])
        (slice-did_header req s.tx_buf d_len
          ∙ (ap (λ rest. u8 (req 0 + 0x40) ∷ req 1 ∷ req 2 ∷ rest) (h refl)
              ∙ sym (slice-did_header req tx d_len))),
    refl,
  )
  answer_read-Alike s tx req (failure enomem) d_len h = (refl, refl)
  answer_read-Alike s tx req (failure _) d_len h = ground arith

  -- The answer over what the application gives.
  app_read-Alike :
      Exact app
      → (s : Server W) (tx req : Buffer) (w : W) (did d_len : ℕ)
      → let (w', reading) = app.read_did w did (c.buff_size - 3) in
        let s' = record s { world = w'; tx_buf = copy s.tx_buf 3 reading.written } in
        Alike (Services.answer_read s' req reading.ret (stored reading.len_out d_len)) (
          Services.answer_read
            (record s' { tx_buf = copy tx 3 reading.written })
            req
            reading.ret
            (stored reading.len_out d_len))
  app_read-Alike h s tx req w did d_len =
      let (w', reading) = app.read_did w did (c.buff_size - 3) in
      let s' = record s { world = w'; tx_buf = copy s.tx_buf 3 reading.written } in
      answer_read-Alike s' (copy tx 3 reading.written) req reading.ret
        (stored reading.len_out d_len)
        (λ fine.
          rw (h.read_did w did (c.buff_size - 3) fine)
            (slice-copy s.tx_buf 3 reading.written ∙ sym (slice-copy tx 3 reading.written)))

  pub read_did-Alike :
      Exact app
      → (s : Server W) (tx req : Buffer) (len : ℕ) → s.dyn_map.entry_count ≤ 1
      → Alike
          (Services.read_did c os app s req len)
          (Services.read_did c os app (record s { tx_buf = tx }) req len)
  unfolding Services.read_did
  read_did-Alike h s tx req len few =
      let did = be16 (req 1) (req 2) in
      let (ret, w', tx', got) = DynamicDid.read_payload os app s.world s.dyn_map did s.tx_buf 3 0 in
      let (ret', w'', tx'', got') = DynamicDid.read_payload os app s.world s.dyn_map did tx 3 0 in
      let (same, world, size, bytes) = read_payload-Alike s.world s.dyn_map did s.tx_buf tx few in
      let s' = record s { world = w'; tx_buf = tx' } in
      let dynamic = answer_read-Alike s' tx'' req success got (λ fine. bytes) in
      let static = app_read-Alike h s' tx'' req w' did got in
      ground (arith, same, world, size, dynamic, static)
