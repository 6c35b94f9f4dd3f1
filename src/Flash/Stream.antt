-- ===== src/Flash/Stream.antt =====
-- src/uds_flash_pipeline.c: a whole transfer, against the flash memory that it is to fill.
use mathlib.Core.List.{flatten}
use zephyr_uds.Base.{
  ℕ, ◌+◌, ◌-◌, ◌^◌, ◌≤◌, ◌<◌, ◌≡◌, refl, sym, ap, ◌∙◌, false, All, List, [], ◌∷◌, ◌++◌, length,
  length-append, u8, u32, Buffer, holding, copy, copy-copy, copy-nil, slice, slice-holding, arith,
}
use zephyr_uds.Types.{success, Out, send}
use zephyr_uds.Platform.{App}
use zephyr_uds.Flash.{Flash, PipelineState, transferring, is_idle, transfer_data}

-- Blocks that are not empty.
abbrev pub NonEmpty : List (List ℕ) → Type 0
NonEmpty = All (λ payload. 1 ≤ length payload)

-- The state behind a series of blocks that are all taken.
abbrev pub state_after : PipelineState → List (List ℕ) → PipelineState
state_after state [] = state
state_after state (payload ∷ rest) = transferring

state_after_transferring :
    (payloads : List (List ℕ)) → state_after transferring payloads ≡ transferring
state_after_transferring [] = refl
state_after_transferring (payload ∷ rest) = refl

-- The request that carries a block.
abbrev pub block_request : ℕ → List ℕ → Buffer
block_request counter payload = holding (0x36 ∷ counter ∷ payload)

pub slice-block_request :
    (counter : ℕ) (payload : List ℕ)
    → slice 2 (length payload) (block_request counter payload) ≡ payload
slice-block_request counter payload = tail-eq (slice-holding (0x36 ∷ counter ∷ payload))
  where
    tail-eq :
        slice 0 (length (0x36 ∷ counter ∷ payload)) (block_request counter payload)
          ≡ 0x36 ∷ counter ∷ payload
        → slice 2 (length payload) (block_request counter payload) ≡ payload
    tail-eq e = cc

-- The answers that acknowledge the blocks.
pub acknowledgements : ℕ → List (List ℕ) → List Out
acknowledgements counter [] = []
acknowledgements counter (payload ∷ rest) =
    send (0x76 ∷ counter ∷ []) ∷ acknowledgements (u8 (counter + 1)) rest

module _ {W : Type 0} (app : App W) where
  -- A tester that sends the payloads in blocks, with its own counter, which starts at the given
  -- value and wraps like a byte; and the answers.
  unfoldable pub stream : W → Flash → Buffer → ℕ → List (List ℕ) → W × Flash × List Out
  stream w f tx counter [] = (w, f, [])
  stream w f tx counter (payload ∷ rest) =
      let (f', r) = transfer_data app w f (block_request counter payload) (2 + length payload) tx in
      let (w'', f'', later) = stream r.world f' r.tx_buf (u8 (counter + 1)) rest in
      (w'', f'', r.out ++ later)

  -- The flash that the application writes: `memory` is its content, and a block that lies between
  -- the two addresses is written, and nothing else changes.
  pub record Writable (memory : W → Buffer) (low high : ℕ) : Type 0 where
    pub writes :
        (w : W) (offset : ℕ) (payload : List ℕ)
        → low ≤ offset
        → offset + length payload ≤ high
        → ((app.flash_write_block w offset payload).1 ≡ success)
          × (memory (app.flash_write_block w offset payload).0 ≡ copy (memory w) offset payload)

  -- One block that is due, and fits.
  transfer_block :
      (memory : W → Buffer) (low high : ℕ)
      → Writable memory low high
      → high < 2 ^ 32
      → (w : W) (f : Flash) (tx : Buffer) (counter : ℕ) (payload : List ℕ)
      → counter ≡ f.expected_block_counter
      → is_idle f.pipeline_state ≡ false
      → 1 ≤ length payload
      → low ≤ f.memory_address
      → f.memory_address + f.bytes_received + length payload ≤ high
      → let at = f.memory_address + f.bytes_received in
        let (f', r) =
          transfer_data app w f (block_request counter payload) (2 + length payload) tx in
        (memory r.world ≡ copy (memory w) at payload)
        × (f'.bytes_received ≡ f.bytes_received + length payload)
        × (f'.expected_block_counter ≡ u8 (counter + 1))
        × (f'.memory_address ≡ f.memory_address)
        × (f'.pipeline_state ≡ transferring)
        × (r.out ≡ send (0x76 ∷ counter ∷ []) ∷ [])
  unfolding transfer_data
  transfer_block memory low high can fits w f tx counter payload due busy some_bytes above below =
      let at = f.memory_address + f.bytes_received in
      let short : 2 + length payload - 2 ≡ length payload = omega arith in
      let offset : u32 at ≡ at = omega arith in
      rw (short, offset, slice-block_request counter payload)
        (ground (arith, can.writes w at payload))

  -- In a download that is under way, blocks that are not empty, sent with a counter that begins at
  -- the one that is due, are all acknowledged, and fill the flash with their payloads end to end,
  -- from the byte behind those received so far; nothing else in the flash changes. The bytes are
  -- counted, the address stays, and the pipeline is transferring behind the first block. The flash
  -- between two addresses is writable, and the blocks lie between them.
  pub stream_fills :
      (memory : W → Buffer) (low high : ℕ)
      → Writable memory low high
      → high < 2 ^ 32
      → (w : W) (f : Flash) (tx : Buffer) (counter : ℕ) (payloads : List (List ℕ))
      → counter ≡ f.expected_block_counter
      → is_idle f.pipeline_state ≡ false
      → NonEmpty payloads
      → low ≤ f.memory_address
      → f.memory_address + f.bytes_received + length (flatten payloads) ≤ high
      → let (w', f', acks) = stream w f tx counter payloads in
        (memory w' ≡ copy (memory w) (f.memory_address + f.bytes_received) (flatten payloads))
        × (f'.bytes_received ≡ f.bytes_received + length (flatten payloads))
        × (f'.memory_address ≡ f.memory_address)
        × (f'.pipeline_state ≡ state_after f.pipeline_state payloads)
        × (acks ≡ acknowledgements counter payloads)
  unfolding stream acknowledgements flatten
  stream_fills memory low high can fits w f tx counter [] due busy full above below = (
    sym (copy-nil (memory w) (f.memory_address + f.bytes_received)),
    omega arith,
    refl,
    refl,
    refl,
  )
  stream_fills memory low high can fits w f tx counter (payload ∷ rest) due busy full above below =
      let (f', r) = transfer_data app w f (block_request counter payload) (2 + length payload) tx in
      let total = length-append payload (flatten rest) in
      let (wrote, more, next, same, busy', acked) =
        transfer_block memory low high can fits w f tx counter payload due busy full.0 above
          (omega (arith, total)) in
      let (wrote', more', same', busy'', acked') =
        stream_fills memory low high can fits r.world f' r.tx_buf (u8 (counter + 1)) rest (sym next)
          (rw busy') full.1 (rw same above) (omega (arith, total, more, same)) in
      let at = f.memory_address + f.bytes_received in
      (
        wrote'
            ∙ (ap (λ k. copy (memory r.world) k (flatten rest)) (omega (arith, more, same))
                ∙ (ap (λ m. copy m (at + length payload) (flatten rest)) wrote
                    ∙ copy-copy (memory w) at payload (flatten rest))),
        omega (arith, more, more', total),
        same' ∙ same,
        busy'' ∙ (ap (λ p. state_after p rest) busy' ∙ state_after_transferring rest),
        cc (acked, acked'),
      )
