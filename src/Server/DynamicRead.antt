-- ===== src/Server/DynamicRead.antt =====
-- src/uds_dynamic_did.c within src/uds_server.c: an identifier is defined by one request and read
-- by another.
use zephyr_uds.Base.{
  ℕ, ◌+◌, ◌-◌, ◌≤◌, ◌≡◌, ap, ◌∙◌, [], ◌∷◌, length, take, drop, u8, be16, Buffer, slice, arith, ◌<◌,
  ◌⊎◌, inl, inr, get_or, copy, copy_before, copy_behind, get_or-slice, length-slice,
}
use zephyr_uds.Types.{success, send, Addressing}
use zephyr_uds.Platform.{Config, Os, App}
use zephyr_uds.DynamicDid.{define, read_payload}
use zephyr_uds.DynamicDid.Reading
use zephyr_uds.DynamicDid.Reading.{source}
use zephyr_uds.Server.State.{Server}
use zephyr_uds.Server.Services
use zephyr_uds.Server.Services.{did_header}
use zephyr_uds.Server.Replies.{slice-did_header}
use zephyr_uds.Server.Process.{define_dynamic_did, read_did, serve}

module _ {W : Type 0} (c : Config) (os : Os W) (app : App W) where
  -- The answer to a read whose identifier is dynamic.
  dynamic_answer :
      (s : Server W) (req : Buffer) (len : ℕ)
      → 3 ≤ len
      → let (ret, w', tx', got) =
          read_payload os app s.world s.dyn_map (be16 (req 1) (req 2)) s.tx_buf 3 0 in
        ret ≡ success
        → (Services.read_did c os app s req len).1
          ≡ send (slice 0 (3 + got) (did_header req tx')) ∷ []
  unfolding Services.read_did Services.answer_read
  dynamic_answer s req len h fine = ground arith

  -- When a request has defined a dynamic identifier, a request to read it is answered by the
  -- identifier and the part of its source that the definition names, and nothing else. The source
  -- is read without an error, and has that part.
  pub define_then_read :
      (a b : Addressing) (s : Server W) (definition req : Buffer) (len len' : ℕ)
      → 9 ≤ len
      → definition 1 ≡ 0x01
      → 3 ≤ len'
      → req 1 ≡ definition 2
      → req 2 ≡ definition 3
      → (source os app s.world definition).1.ret ≡ success
      → 1 ≤ definition 6
      → definition 6 - 1 + definition 7 ≤ length (source os app s.world definition).1.written
      → let s' = (serve c os app define_dynamic_did a s definition len).0 in
        (serve c os app read_did b s' req len').1
        ≡ send (
            u8 (req 0 + 0x40)
            ∷ req 1
            ∷ req 2
            ∷ take
                (definition 7)
                (drop (definition 6 - 1) (source os app s.world definition).1.written))
          ∷ []
  unfolding serve Services.define_dynamic_did
  define_then_read a b s definition req len len' h sub h' hi lo fine one within =
      let s' = record s { dyn_map = (define s.dyn_map definition len).0 } in
      let (read, size, bytes) =
        Reading.define-read os app s.world s.dyn_map definition len s.tx_buf 3 0 h sub fine one
          within in
      let did : be16 (definition 2) (definition 3) ≡ be16 (req 1) (req 2) = omega (arith, hi, lo) in
      let (ret, w', tx', got) =
        read_payload os app s.world s'.dyn_map (be16 (req 1) (req 2)) s.tx_buf 3 0 in
      dynamic_answer s' req len' h' (rw did at read)
      ∙ ap (λ sent. send sent ∷ [])
          (slice-did_header req tx' got
            ∙ ap (λ rest. u8 (req 0 + 0x40) ∷ req 1 ∷ req 2 ∷ rest) (rw did at bytes))

  -- The flaw: nothing holds the position and the length of a definition against the source. When a
  -- request has defined a dynamic identifier, whose source is read without an error, a request to
  -- read it is answered by its header and as many bytes as the definition says; and each of them
  -- that the definition places behind the end of the source's data is what the stack held there,
  -- and so is the one before the array, at position 0.
  pub stack_bytes_sent :
      (a b : Addressing) (s : Server W) (definition req : Buffer) (len len' k : ℕ)
      → 9 ≤ len
      → definition 1 ≡ 0x01
      → 3 ≤ len'
      → req 1 ≡ definition 2
      → req 2 ≡ definition 3
      → (source os app s.world definition).1.ret ≡ success
      → k < definition 7
      → (definition 6 + k ≡ 0)
        ⊎ (length (source os app s.world definition).1.written < definition 6 + k)
      → let s' = (serve c os app define_dynamic_did a s definition len).0 in
        let written = (source os app s.world definition).1.written in
        let bytes = slice (definition 6) (definition 7) (copy (os.stack s.world) 1 written) in
        ((serve c os app read_did b s' req len').1
          ≡ send (u8 (req 0 + 0x40) ∷ req 1 ∷ req 2 ∷ bytes) ∷ [])
        × (length bytes ≡ definition 7)
        × (get_or bytes k 0 ≡ os.stack s.world (definition 6 + k))
  unfolding serve Services.define_dynamic_did
  stack_bytes_sent a b s definition req len len' k h sub h' hi lo fine inside outside =
      let s' = record s { dyn_map = (define s.dyn_map definition len).0 } in
      let written = (source os app s.world definition).1.written in
      let from = copy (os.stack s.world) 1 written in
      let result =
        Reading.read_payload_lem os app s.world s.dyn_map definition len s.tx_buf 3 0 h sub fine in
      let read : (read_payload os app s.world s'.dyn_map (Reading.new_did os app definition)
            s.tx_buf 3 0).0
          ≡ success =
        ap (λ r. r.0) result in
      let bytes = Reading.payload os app s.world s.dyn_map definition len s.tx_buf 3 0 h sub fine in
      let did : be16 (definition 2) (definition 3) ≡ be16 (req 1) (req 2) = omega (arith, hi, lo) in
      let (ret, w', tx', got) =
        read_payload os app s.world s'.dyn_map (be16 (req 1) (req 2)) s.tx_buf 3 0 in
      (
        dynamic_answer s' req len' h' (rw did at read)
            ∙ ap (λ sent. send sent ∷ [])
                (slice-did_header req tx' got
                  ∙ ap (λ rest. u8 (req 0 + 0x40) ∷ req 1 ∷ req 2 ∷ rest) (rw did at bytes)),
        length-slice (definition 6) (definition 7) from,
        get_or-slice (definition 6) (definition 7) k from inside ∙ elim outside [
          | inl before ↦ copy_before (os.stack s.world) 1 (definition 6 + k) written (omega arith)
          | inr past ↦ copy_behind (os.stack s.world) 1 (definition 6 + k) written (omega arith)
        ],
      )
