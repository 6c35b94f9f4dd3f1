-- ===== src/Flash/Image.antt =====
-- src/uds_flash_pipeline.c: the flash holds what was acknowledged.
use zephyr_uds.Base.{
  ℕ, ◌+◌, ◌^◌, ◌<◌, ◌≡◌, inl, refl, ap, ap₂, sym, ◌∙◌, Bool, false, ◌||◌, ◌&&◌, Option, none, some,
  List, [], ◌∷◌, ◌++◌, length, length-append, ◌==◌, Buffer, slice, slice-append, slice-ext,
  slice-copy, slice-copy_before, copy, arith,
}
use zephyr_uds.Types.{Out, send}
use zephyr_uds.Flash.{Flash, is_idle}
use zephyr_uds.Flash.Programming.{KeptOutside, opened, advanced, write_offset}

-- The positive responses to a request, and the negative ones, among frames: by their first byte,
-- and by the service and the code.
abbrev pub has_response : ℕ → List Out → Bool
has_response sid [] = false
has_response sid (send (first ∷ rest) ∷ os) = first == sid || has_response sid os
has_response sid (_ ∷ os) = has_response sid os

abbrev pub has_refusal : ℕ → ℕ → List Out → Bool
has_refusal sid code [] = false
has_refusal sid code (send (first ∷ service ∷ reason ∷ []) ∷ os) =
    ((first == 0x7F) && ((service == sid) && (reason == code))) || has_refusal sid code os
has_refusal sid code (_ ∷ os) = has_refusal sid code os

-- The bytes that were acknowledged since the last download was accepted, as a tester keeps them; or
-- `none` since an erasure was refused.
abbrev pub Image : Type 0
Image = Option (List ℕ)

abbrev pub more : Image → List ℕ → Image
more none payload = none
more (some bytes) payload = some (bytes ++ payload)

-- While a download is under way that fits below the end of the 32-bit addresses, as many bytes are
-- counted, and the flash holds them from the download's address on.
abbrev pub Holds : Image → Flash → Buffer → Type 0
Holds image f m =
    (bytes : List ℕ)
    → image ≡ some bytes
    → is_idle f.pipeline_state ≡ false
    → f.memory_address + length bytes < 2 ^ 32
    → (f.bytes_received ≡ length bytes) × (slice f.memory_address (length bytes) m ≡ bytes)

pub slice-written :
    (m : Buffer) (address : ℕ) (bytes payload : List ℕ)
    → slice address (length bytes) m ≡ bytes
    → slice address (length (bytes ++ payload)) (copy m (address + length bytes) payload)
      ≡ bytes ++ payload
slice-written m address bytes payload held =
    let n = length bytes in
    let m' = copy m (address + n) payload in
    rw (length-append bytes payload) (
      slice-append address n (length payload) m'
      ∙ ap₂ ◌++◌ (slice-copy_before m address n (address + n) payload (omega arith) ∙ held)
          (slice-copy m (address + n) payload))

slice-kept :
    (m m' : Buffer) (address n size : ℕ)
    → KeptOutside (address + n) size m m'
    → slice address n m' ≡ slice address n m
slice-kept m m' address n size kept = slice-ext address n m' m (λ j p q. kept j (inl (omega arith)))

-- A block that is refused may spoil its own place alone.
pub refused-Holds :
    (image : Image) (f : Flash) (m m' : Buffer) (size : ℕ)
    → KeptOutside (write_offset f) size m m'
    → Holds image f m
    → Holds image f m'
refused-Holds image f m m' size kept held bytes e busy fits =
    let (count, same) = held bytes e busy fits in
    let there : write_offset f ≡ f.memory_address + length bytes = omega (arith, count, fits) in
    (count, slice-kept m m' f.memory_address (length bytes) size (rw there at kept) ∙ same)

-- A block that is written stands behind the others.
pub written-Holds :
    (image : Image) (f : Flash) (m : Buffer) (payload : List ℕ)
    → is_idle f.pipeline_state ≡ false
    → Holds image f m
    → Holds (more image payload) (advanced f (length payload)) (copy m (write_offset f) payload)
written-Holds none f m payload running held bytes e busy fits = absurd (ground arith)
written-Holds (some before) f m payload running held bytes e busy fits =
    let all : before ++ payload ≡ bytes = cc in
    let total = length-append before payload in
    let size : length bytes ≡ length before + length payload = sym (ap length all) ∙ total in
    let (count, same) = held before refl running (omega (arith, size, fits)) in
    let there : write_offset f ≡ f.memory_address + length before =
      omega (arith, count, size, fits) in
    (
      omega (arith, count, size, fits),
      rw (there, sym all) (slice-written m f.memory_address before payload same),
    )

-- An accepted download begins with none.
pub opened-Holds : (address size : ℕ) (m : Buffer) → Holds (some []) (opened address size) m
opened-Holds address size m bytes e busy fits =
    let none_yet : bytes ≡ [] = cc in rw none_yet (refl, refl)
