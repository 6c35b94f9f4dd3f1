-- ===== src/DynamicDid/Reading.antt =====
-- src/uds_dynamic_did.c: what a dynamic identifier reads after it was defined.
use native.Mathlib.Nat.{zero-add, add-zero}
use zephyr_uds.Base.{
  ℕ, ◌+◌, ◌-◌, ◌≤◌, ◌≡◌, refl, sym, ap, ◌∙◌, length, take, drop, be16, Buffer, copy, slice,
  slice-copy, slice-copy_part, length-slice, arith,
}
use zephyr_uds.Types.{success}
use zephyr_uds.Platform.{Os, App, Reading}
use zephyr_uds.DynamicDid.{DynamicDidMap, define, copy_entry, copy_entries, read_payload}

module _ {W : Type 0} (os : Os W) (app : App W) where
  -- What the definition request names: the new identifier, its source, and where to begin.
  abbrev pub new_did : Buffer → ℕ
  new_did req = be16 (req 2) (req 3)

  abbrev pub source_did : Buffer → ℕ
  source_did req = be16 (req 4) (req 5)

  -- What the source gives.
  abbrev pub source : W → Buffer → W × Reading
  source w req = app.read_did w (source_did req) 64

  -- The read of an identifier that was just defined, in all cases of the source.
  pub read_payload_lem :
      (w : W) (m : DynamicDidMap) (req : Buffer) (len : ℕ) (buf : Buffer) (base l : ℕ)
      → 9 ≤ len
      → req 1 ≡ 0x01
      → (source w req).1.ret ≡ success
      → let m' = (define m req len).0 in
        read_payload os app w m' (new_did req) buf base l ≡ (
          success,
          (source w req).0,
          copy buf
              (base + 0)
              (slice (req 6) (req 7) (copy (os.stack w) 1 (source w req).1.written)),
          0 + req 7,
        )
  unfolding define read_payload copy_entries copy_entry
  read_payload_lem w m req len buf base l h sub fine = ground arith

  -- What the read leaves in the buffer, where the source gives its data.
  pub payload :
      (w : W) (m : DynamicDidMap) (req : Buffer) (len : ℕ) (buf : Buffer) (base l : ℕ)
      → 9 ≤ len
      → req 1 ≡ 0x01
      → (source w req).1.ret ≡ success
      → let (ret, w', buf', got) =
          read_payload os app w (define m req len).0 (new_did req) buf base l in
        slice base got buf' ≡ slice (req 6) (req 7) (copy (os.stack w) 1 (source w req).1.written)
  payload w m req len buf base l h sub fine =
      let from = copy (os.stack w) 1 (source w req).1.written in
      let bytes = slice (req 6) (req 7) from in
      let size = length-slice (req 6) (req 7) from in
      rw (read_payload_lem w m req len buf base l h sub fine, add-zero, zero-add)
        (ap (λ n. slice base n (copy buf base bytes)) (sym size) ∙ slice-copy buf base bytes)

  -- A dynamic identifier that was just defined reads the part of its source that the definition
  -- names: `req[7]` bytes from the position `req[6]` on, which counts from 1. The source is read
  -- without an error, and has that many bytes.
  pub define-read :
      (w : W) (m : DynamicDidMap) (req : Buffer) (len : ℕ) (buf : Buffer) (base l : ℕ)
      → 9 ≤ len
      → req 1 ≡ 0x01
      → (source w req).1.ret ≡ success
      → 1 ≤ req 6
      → req 6 - 1 + req 7 ≤ length (source w req).1.written
      → let (ret, w', buf', got) =
          read_payload os app w (define m req len).0 (new_did req) buf base l in
        (ret ≡ success)
        × (got ≡ req 7)
        × (slice base got buf' ≡ take (req 7) (drop (req 6 - 1) (source w req).1.written))
  define-read w m req len buf base l h sub fine one within =
      let result = read_payload_lem w m req len buf base l h sub fine in
      let place : 1 + (req 6 - 1) ≡ req 6 = omega arith in
      (
        rw result refl,
        rw result (zero-add (req 7)),
        payload w m req len buf base l h sub fine
            ∙ (ap (λ k. slice k (req 7) (copy (os.stack w) 1 (source w req).1.written)) (sym place)
                ∙ slice-copy_part (os.stack w) 1 (req 6 - 1) (req 7) (source w req).1.written
                    within),
      )
