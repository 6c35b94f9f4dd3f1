-- ===== src/Server/Frames.antt =====
-- src/uds_server.c and the handlers: how long the frames are whose length is not fixed.
pub mod All
pub mod Life
use zephyr_uds.Base.{
  ℕ, zero, suc, ◌+◌, ◌-◌, ◌≤◌, ◌<◌, ◌≡◌, refl, Bool, true, false, Bool-cases, Option-cases, inl,
  inr, and_both, List, [], ◌∷◌, leb, ltb, all, all-append, length, length-slice, be16, be24, Buffer,
  copy, store, u8, arith,
}
use zephyr_uds.Types.{Addressing, Ret, success, failure, enomem, Out, send}
use zephyr_uds.Platform.{Config, IsConfig, Os, App, Fs, ok, stored}
use zephyr_uds.Security
use zephyr_uds.Security.{Security}
use zephyr_uds.ReadDtc
use zephyr_uds.ReadDtc.Report
use zephyr_uds.DynamicDid
use zephyr_uds.DynamicDid.{DynamicDidMap, Filling}
use zephyr_uds.Server.State.{Server, perform, perform_all, send_nrc}
use zephyr_uds.Server.Services
use zephyr_uds.Server.Services.{did_header}
use zephyr_uds.Server.Width.{IsDynamic}

-- A frame of no more than `room` bytes.
abbrev pub fits : ℕ → Out → Bool
fits room (send bytes) = leb (length bytes) room
fits room _ = true

fits-perform :
    (room : ℕ) (a : Addressing) (o : Out)
    → 3 ≤ room
    → fits room o ≡ true
    → all (fits room) (perform a o) ≡ true
unfolding perform send_nrc
fits-perform room a o h k = ground arith

pub fits-perform_all :
    (room : ℕ) (a : Addressing) (calls : List Out)
    → 3 ≤ room
    → all (fits room) calls ≡ true
    → all (fits room) (perform_all a calls) ≡ true
unfolding perform_all
fits-perform_all room a [] h k = refl
fits-perform_all room a (o ∷ os) h k =
    let (now, later) = and_both (fits room o) (all (fits room) os) k in
    all-append (fits room) (perform a o) (perform_all a os) (fits-perform room a o h now)
      (fits-perform_all room a os h later)

module _ {W : Type 0} (app : App W) where
  -- The hooks that read give no more bytes than they have room for: where they are told, that, and
  -- for a periodic identifier 14, whatever the length held before.
  pub record Roomy : Type 0 where
    pub read_did :
        (w : W) (did max_len : ℕ) → stored (app.read_did w did max_len).1.len_out 0 ≤ max_len
    pub freeze_frame :
        (w : W) (dtc record_num max_len : ℕ)
        → stored (app.get_freeze_frame w dtc record_num max_len).1.len_out 0 ≤ max_len
    pub periodic_did :
        (w : W) (did before : ℕ)
        → ok (app.get_periodic_did w did).1.ret ≡ true
        → stored (app.get_periodic_did w did).1.len_out before ≤ 14

module _ {W : Type 0} (c : Config) (os : Os W) (app : App W) where
  copy_entries-short :
      (m : DynamicDidMap) (rounds : ℕ) (t : Filling W)
      → rounds ≤ 1
      → (m.entries 0).length < 256
      → t.total_len ≡ 0
      → (DynamicDid.copy_entries app 3 m rounds 0 t).total_len ≤ 255
  unfolding DynamicDid.copy_entries DynamicDid.copy_entry
  copy_entries-short m zero t h k e = omega (arith, e)
  copy_entries-short m (suc zero) t h k e = ground (arith, e)
  copy_entries-short m (suc (suc rounds)) t h k e = omega (arith, h)

  -- A dynamic identifier has no more bytes than its entry says, and another none.
  read_payload-short :
      (w : W) (m : DynamicDidMap) (did : ℕ) (buf : Buffer)
      → IsDynamic m
      → let (ret, w', buf', got) = DynamicDid.read_payload os app w m did buf 3 0 in
        (got ≤ 255) × (ok ret ≡ false → got ≡ 0)
  unfolding DynamicDid.read_payload
  read_payload-short w m did buf k =
      let start : Filling W = record {
        world = w;
        source = os.stack w;
        filled = buf;
        total_len = 0;
      } in
      ground (arith, copy_entries-short m m.entry_count start k.0 k.1 refl)

  answer_read-fits :
      (s : Server W) (req : Buffer) (ret : Ret) (d_len room : ℕ)
      → 3 + d_len ≤ room
      → all (fits room) (Services.answer_read s req ret d_len).1 ≡ true
  unfolding Services.answer_read
  answer_read-fits s req success d_len room h =
      ground (arith, length-slice 0 (3 + d_len) (did_header req s.tx_buf))
  answer_read-fits s req (failure enomem) d_len room h = refl
  answer_read-fits s req (failure _) d_len room h = refl

  pub read_did-fits :
      Roomy app
      → 258 ≤ c.buff_size
      → (s : Server W) (req : Buffer) (len : ℕ) → IsDynamic s.dyn_map
      → all (fits c.buff_size) (Services.read_did c os app s req len).1 ≡ true
  unfolding Services.read_did
  read_did-fits h room s req len k =
      let did = be16 (req 1) (req 2) in
      let (ret, w', tx', got) = DynamicDid.read_payload os app s.world s.dyn_map did s.tx_buf 3 0 in
      let (short, none_got) = read_payload-short s.world s.dyn_map did s.tx_buf k in
      let s' = record s { world = w'; tx_buf = tx' } in
      let (w'', reading) = app.read_did w' did (c.buff_size - 3) in
      let s'' = record s' { world = w''; tx_buf = copy tx' 3 reading.written } in
      let promised = h.read_did w' did (c.buff_size - 3) in
      elim (Bool-cases (ok ret)) [
        | inl fine ↦
            ground (arith, answer_read-fits s' req success got c.buff_size (omega (arith, short)))
        | inr failed ↦
            let nothing = none_got failed in
            ground (
              arith,
              answer_read-fits s'' req reading.ret (stored reading.len_out got) c.buff_size
                  (rw nothing (omega (arith, promised))),
            )
      ]

  by_status_mask-fits :
      258 ≤ c.buff_size
      → (w : W) (fs : Fs) (req : Buffer) (len : ℕ) (tx : Buffer)
      → all (fits c.buff_size) (ReadDtc.by_status_mask c os app w fs req len tx).out ≡ true
  by_status_mask-fits room w fs req len tx = elim (Bool-cases (ltb len 3)) [
    | inl short ↦ unfold ReadDtc.by_status_mask in ground arith
    | inr long ↦
        rw (Report.by_status_mask_lem c os app w fs req len tx (ground arith))
          (ground (arith, Report.length-report c os app w fs (req 2)))
  ]

  stored_data-fits :
      Roomy app
      → 258 ≤ c.buff_size
      → (w : W) (req : Buffer) (len : ℕ) (tx : Buffer)
      → all (fits c.buff_size) (ReadDtc.stored_data c os app w req len tx).out ≡ true
  unfolding ReadDtc.stored_data
  stored_data-fits h room w req len tx =
      let head =
        store (store (store (store (store tx 0 (u8 (req 0 + 0x40))) 1 (req 1)) 2 (req 2)) 3 (req 3))
          4 (req 4) in
      let (w', reading) =
        app.get_freeze_frame w (be24 (req 2) (req 3) (req 4)) (req 5) (c.buff_size - 5) in
      ground (
        arith,
        h.freeze_frame w (be24 (req 2) (req 3) (req 4)) (req 5) (c.buff_size - 5),
        length-slice 0 (5 + stored reading.len_out 0) (copy head 5 reading.written),
      )

  pub read_dtc-fits :
      Roomy app
      → 258 ≤ c.buff_size
      → (s : Server W) (req : Buffer) (len : ℕ)
      → all (fits c.buff_size) (Services.read_dtc c os app s req len).1 ≡ true
  unfolding Services.read_dtc ReadDtc.handle
  read_dtc-fits h room s req len = elim (Option-cases (app.get_nvs_context s.world)) [
    | inl none_there ↦ ground arith
    | inr (fs, there) ↦ ground (
      arith,
      by_status_mask-fits room s.world fs req len s.tx_buf,
      stored_data-fits h room s.world req len s.tx_buf,
    )
  ]

  pub seed-fits :
      IsConfig c
      → 258 ≤ c.buff_size
      → (w : W) (s : Security) (req : Buffer) (len : ℕ) (tx : Buffer)
      → all (fits c.buff_size) (Security.request_seed c os w s req len tx).1.out ≡ true
  unfolding Security.request_seed
  seed-fits v room w s req len tx =
      let made = Security.generate_seed c os w s in
      ground (
        arith,
        v,
        length-slice 0 (2 + c.seed_size)
            (copy (store (store tx 0 (u8 (req 0 + 0x40))) 1 (req 1)) 2 made.1.generated_seed),
      )
