-- ===== src/Server/Replies.antt =====
-- src/uds_server.c: the services that the switch answers itself.
use zephyr_uds.Base.{
  zero, suc, ◌<◌, ◌^◌, u32, Option, none, ℕ, ◌+◌, ◌-◌, ◌≡◌, ◌≢◌, refl, sym, ap, ◌∙◌, true, some,
  List, [], ◌∷◌, length, ltb, if◌then◌else◌, u8, be16, Buffer, copy, slice, length-slice,
  Bool-cases, inl, inr, slice-append, slice-ext, slice-copy, store, arith,
}
use zephyr_uds.Types.{Ret, success, failure, enomem, Out, send, nrc}
use zephyr_uds.Types.Nrc
use zephyr_uds.Platform.{Config, Os, App, Reading, ok, stored}
use zephyr_uds.DynamicDid
use zephyr_uds.Server.State.{Server, trigger_event_response}
use zephyr_uds.Server.Services.{did_header, read_did, answer_read}

-- The frame of an answer to 0x22: the header, and what stands behind it.
pub slice-did_header :
    (req tx : Buffer) (n : ℕ)
    → slice 0 (3 + n) (did_header req tx) ≡ u8 (req 0 + 0x40) ∷ req 1 ∷ req 2 ∷ slice 3 n tx
slice-did_header req tx n =
    slice-append 0 3 n (did_header req tx)
    ∙ ap (λ bytes. u8 (req 0 + 0x40) ∷ req 1 ∷ req 2 ∷ bytes)
        (slice-ext 3 n (did_header req tx) tx (λ j p q. ground arith))

did_frame :
    (req tx : Buffer) (written : List ℕ)
    → slice 0 (3 + length written) (did_header req (copy tx 3 written))
      ≡ u8 (req 0 + 0x40) ∷ req 1 ∷ req 2 ∷ written
did_frame req tx written =
    slice-did_header req (copy tx 3 written) (length written)
    ∙ ap (λ bytes. u8 (req 0 + 0x40) ∷ req 1 ∷ req 2 ∷ bytes) (slice-copy tx 3 written)

-- What the application gives for the identifier of the request.
abbrev pub given : {W : Type 0} → Config → App W → Server W → Buffer → Reading
given c app s req = (app.read_did s.world (be16 (req 1) (req 2)) (c.buff_size - 3)).1

-- The answer by what the application returned.
abbrev pub did_answer : Buffer → Ret → List ℕ → Out
did_answer req success written = send (u8 (req 0 + 0x40) ∷ req 1 ∷ req 2 ∷ written)
did_answer req (failure enomem) written = nrc (req 0) Nrc.response_pending
did_answer req (failure _) written = nrc (req 0) Nrc.request_out_of_range

module _ {W : Type 0} where
  answer_read_lem :
      (s : Server W) (req tx : Buffer) (ret : Ret) (written : List ℕ) (n : ℕ)
      → (ok ret ≡ true → n ≡ length written)
      → (answer_read (record s { tx_buf = copy tx 3 written }) req ret n).1
        ≡ did_answer req ret written ∷ []
  unfolding answer_read
  answer_read_lem s req tx success written n sized =
      rw (sized refl) (ap (λ bytes. send bytes ∷ []) (did_frame req tx written))
  answer_read_lem s req tx (failure enomem) written n sized = refl
  answer_read_lem s req tx (failure _) written n sized = refl

module _ {W : Type 0} (c : Config) (os : Os W) (app : App W) where
  -- A request to read an identifier that is not the dynamic one is answered by one call: by the
  -- identifier and the application's bytes, and nothing else, where it gives them; by 0x78 where it
  -- returns -ENOMEM, by 0x31 where it returns another error, and by 0x13 if it is too short. Where
  -- the application gives its data, it says how many bytes it wrote.
  pub read_did_replies :
      (s : Server W) (req : Buffer) (len : ℕ)
      → s.dyn_map.dyn_did ≢ be16 (req 1) (req 2)
      → (ok (given c app s req).ret ≡ true
          → (given c app s req).len_out ≡ some (length (given c app s req).written))
      → (read_did c os app s req len).1
        ≡ (if ltb len 3
            then nrc (req 0) Nrc.incorrect_length_or_invalid_format
            else did_answer req (given c app s req).ret (given c app s req).written)
          ∷ []
  unfolding read_did DynamicDid.read_payload
  read_did_replies s req len other sized =
      let reading = given c app s req in
      let w' = (app.read_did s.world (be16 (req 1) (req 2)) (c.buff_size - 3)).0 in
      let answered =
        answer_read_lem (record s { world = w' }) req s.tx_buf reading.ret reading.written
          (stored reading.len_out 0) (λ fine. ground (arith, sized fine)) in
      ground (arith, answered)

  -- What follows the type of an event: the payload if there is one and the frame is shorter than the
  -- buffer, else what the stack held.
  abbrev pub event_bytes : Buffer → Option Buffer → ℕ → List ℕ
  event_bytes stack none len = slice 2 len stack
  event_bytes stack (some payload) len =
      if ltb (len + 2) c.buff_size then slice 0 len payload else slice 2 len stack

  head-event :
      (stack : Buffer) (event_type len : ℕ)
      → slice 0 (2 + len) (store (store stack 0 0x86) 1 event_type)
        ≡ 0x86 ∷ event_type ∷ slice 2 len stack
  head-event stack event_type len =
      let head = store (store stack 0 0x86) 1 event_type in
      slice-append 0 2 len head
      ∙ ap (λ rest. 0x86 ∷ event_type ∷ rest) (slice-ext 2 len head stack (λ j p q. ground arith))

  event-some :
      (stack bytes : Buffer) (event_type len : ℕ)
      → slice 0 (2 + len) (copy (store (store stack 0 0x86) 1 event_type) 2 (slice 0 len bytes))
        ≡ 0x86 ∷ event_type ∷ slice 0 len bytes
  event-some stack bytes event_type len =
      let payload = slice 0 len bytes in
      let filled = copy (store (store stack 0 0x86) 1 event_type) 2 payload in
      slice-append 0 2 len filled
      ∙ ap (λ rest. 0x86 ∷ event_type ∷ rest)
          (ap (λ n. slice 2 n filled) (sym (length-slice 0 len bytes))
            ∙ slice-copy (store (store stack 0 0x86) 1 event_type) 2 payload)

  -- An event of a length at which 2 + len does not wrap in 32 bits is sent as 0x86, its type and
  -- `len` bytes: those of the payload, if there is a payload and the frame is shorter than the
  -- buffer, else what the stack held, in place of a payload that is NULL or that does not fit.
  pub trigger_event_frames :
      (stack : Buffer) (payload : Option Buffer) (event_type len : ℕ)
      → 2 + len < 2 ^ 32
      → trigger_event_response c stack event_type payload len
        ≡ send (0x86 ∷ event_type ∷ event_bytes stack payload len) ∷ []
  unfolding trigger_event_response
  trigger_event_frames stack none event_type len h =
      let same : u32 (2 + len) ≡ 2 + len = ground arith in
      rw same (ap (λ sent. send sent ∷ []) (head-event stack event_type len))
  trigger_event_frames stack (some bytes) event_type zero h =
      ap (λ sent. send sent ∷ []) (ground arith)
  trigger_event_frames stack (some bytes) event_type (suc n) h =
      let len = suc n in
      let same : u32 (2 + len) ≡ 2 + len = ground arith in
      let same' : u32 (len + 2) ≡ len + 2 = ground arith in
      let some_bytes : ltb 0 len ≡ true = ground arith in
      elim (Bool-cases (ltb (len + 2) c.buff_size)) [
        | inl fits ↦
            rw (same, same', some_bytes, fits)
              (ap (λ sent. send sent ∷ []) (event-some stack bytes event_type len))
        | inr over ↦
            rw (same, same', some_bytes, over)
              (ap (λ sent. send sent ∷ []) (head-event stack event_type len))
      ]
