-- ===== src/Base/Memory.antt =====
-- A byte array of the program, read and written by index. Memory past the end of the array is
-- memory too: what a function does there is seen in the model, and is stated by the theorems on
-- bounds.
use Prim.Native.Nat.{ℕ, zero, suc, ◌+◌, ◌-◌, ◌≤◌, ◌<◌}
use mathlib.Core.Path.{◌≡◌, refl, sym, ◌∙◌, ap, ap₂, fun_ext}
use mathlib.Core.List.{List, [], ◌∷◌, ◌++◌}
use native.Mathlib.Omega.{arith}
use native.Mathlib.Nat.{add-zero, add-suc, suc-add, zero-add, add_assoc}
use zephyr_uds.Base.Tests.{ltb, ◌==◌, if◌then◌else◌}
use zephyr_uds.Base.Lists.{length, get_or, take, drop, length-take-drop, get_or-take-drop}

abbrev pub Buffer : Type 0
Buffer = ℕ → ℕ

-- The buffer that begins with the given bytes, and is 0 behind them.
abbrev pub holding : List ℕ → Buffer
holding xs i = get_or xs i 0

-- `buf[i] = v`
abbrev pub store : Buffer → ℕ → ℕ → Buffer
store buf i v j = if j == i then v else buf j

-- Every element is a byte.
abbrev pub IsBytes : Buffer → Type 0
IsBytes buf = (i : ℕ) → buf i < 256

-- `memcpy(&buf[i], bytes, length)`
abbrev pub copy : Buffer → ℕ → List ℕ → Buffer
copy buf i bytes j = if ltb j i then buf j else get_or bytes (j - i) (buf j)

-- The `n` bytes from index `i` on.
abbrev pub slice : ℕ → ℕ → Buffer → List ℕ
slice i zero buf = []
slice i (suc n) buf = buf i ∷ slice (suc i) n buf

pub length-slice : (i n : ℕ) (buf : Buffer) → length (slice i n buf) ≡ n
length-slice i zero buf = refl
length-slice i (suc n) buf = ap suc (length-slice (suc i) n buf)

-- Two buffers that agree on the slice have the same slice.
pub slice-ext :
    (i n : ℕ) (a b : Buffer) → ((j : ℕ) → i ≤ j → j < i + n → a j ≡ b j) → slice i n a ≡ slice i n b
slice-ext i zero a b h = refl
slice-ext i (suc n) a b h =
    ap₂ ◌∷◌ (h i (omega arith) (omega arith))
      (slice-ext (suc i) n a b (λ j p q. h j (omega arith) (omega arith)))

-- A buffer that holds the bytes at `i` has them as its slice there.
slice_of_get_or :
    (xs : List ℕ) (i : ℕ) (b : Buffer)
    → ((j : ℕ) → j < length xs → b (i + j) ≡ get_or xs j 0)
    → slice i (length xs) b ≡ xs
slice_of_get_or [] i b h = refl
slice_of_get_or (x ∷ xs) i b h =
    ap₂ ◌∷◌ (rw add-zero at (h 0 (omega arith)))
      (slice_of_get_or xs (suc i) b (λ j p. rw (suc-add, ← add-suc) (h (suc j) (omega arith))))

get_or-default : (xs : List ℕ) (j d : ℕ) → j < length xs → get_or xs j d ≡ get_or xs j 0
get_or-default [] j d h = elim h [ ]
get_or-default (x ∷ xs) zero d h = refl
get_or-default (x ∷ xs) (suc j) d h = get_or-default xs j d (omega arith)

pub copy_at :
    (buf : Buffer) (i j : ℕ) (xs : List ℕ) → j < length xs → copy buf i xs (i + j) ≡ get_or xs j 0
copy_at buf i j xs h =
    let back : i + j - i ≡ j = omega arith in
    ground (arith, back, get_or-default xs j (buf (i + j)))

-- What was copied is read back.
pub slice-copy : (buf : Buffer) (i : ℕ) (xs : List ℕ) → slice i (length xs) (copy buf i xs) ≡ xs
slice-copy buf i xs = slice_of_get_or xs i (copy buf i xs) (λ j h. copy_at buf i j xs h)

-- The slice of a buffer that holds the bytes.
pub slice-holding : (xs : List ℕ) → slice 0 (length xs) (holding xs) ≡ xs
slice-holding xs = slice_of_get_or xs 0 (holding xs) (λ j h. rw (zero-add) refl)

pub get_or-append :
    (xs ys : List ℕ) (j d : ℕ)
    → get_or (xs ++ ys) j d
      ≡ (if ltb j (length xs) then get_or xs j d else get_or ys (j - length xs) d)
get_or-append [] ys j d = ground arith
get_or-append (x ∷ xs) ys zero d = ground arith
get_or-append (x ∷ xs) ys (suc j) d = ground (arith, get_or-append xs ys j d)

pub get_or_past : (xs : List ℕ) (j d : ℕ) → length xs ≤ j → get_or xs j d ≡ d
get_or_past [] j d h = refl
get_or_past (x ∷ xs) zero d h = absurd (omega arith)
get_or_past (x ∷ xs) (suc j) d h = get_or_past xs j d (omega arith)

-- Two writes, one behind the other, are one write.
pub copy-copy :
    (m : Buffer) (i : ℕ) (xs ys : List ℕ)
    → copy (copy m i xs) (i + length xs) ys ≡ copy m i (xs ++ ys)
copy-copy m i xs ys = fun_ext λ j.
    let there : j - (i + length xs) ≡ j - i - length xs = omega arith in
    ground (arith, get_or-append xs ys (j - i) (m j), get_or_past xs (j - i) (m j), there)

pub copy-nil : (m : Buffer) (i : ℕ) → copy m i [] ≡ m
copy-nil m i = fun_ext λ j. ground arith

pub slice-append :
    (i m n : ℕ) (buf : Buffer) → slice i (m + n) buf ≡ slice i m buf ++ slice (i + m) n buf
slice-append i zero n buf = rw (zero-add, add-zero)
slice-append i (suc m) n buf =
    rw (suc-add, add-suc) (ap (◌∷◌ (buf i)) (rw (← suc-add) (slice-append (suc i) m n buf)))

-- What stands before a write is as it was, and so is what stands behind it.
pub copy_before : (buf : Buffer) (i j : ℕ) (xs : List ℕ) → j < i → copy buf i xs j ≡ buf j
copy_before buf i j xs h = ground arith

pub copy_behind :
    (buf : Buffer) (i j : ℕ) (xs : List ℕ) → i + length xs ≤ j → copy buf i xs j ≡ buf j
copy_behind buf i j xs h =
    let past : length xs ≤ j - i = omega arith in
    ground (arith, get_or_past xs (j - i) (buf j) past)

pub slice-copy_before :
    (buf : Buffer) (i n at : ℕ) (xs : List ℕ)
    → i + n ≤ at
    → slice i n (copy buf at xs) ≡ slice i n buf
slice-copy_before buf i n at xs h =
    slice-ext i n _ _ (λ j p q. copy_before buf at j xs (omega arith))

-- A header, and bytes that were copied behind it.
pub slice-prefixed :
    (n : ℕ) (head : Buffer) (bytes : List ℕ)
    → slice 0 (n + length bytes) (copy head n bytes) ≡ slice 0 n head ++ bytes
slice-prefixed n head bytes =
    slice-append 0 n (length bytes) (copy head n bytes)
    ∙ rw zero-add
        (ap₂ ◌++◌ (slice-copy_before head 0 n n bytes (omega arith)) (slice-copy head n bytes))

-- A part of what was copied.
pub slice-copy_part :
    (buf : Buffer) (i k n : ℕ) (xs : List ℕ)
    → k + n ≤ length xs
    → slice (i + k) n (copy buf i xs) ≡ take n (drop k xs)
slice-copy_part buf i k n xs h =
    let part = take n (drop k xs) in
    let size : length part ≡ n = length-take-drop n k xs h in
    ap (λ m. slice (i + k) m (copy buf i xs)) (sym size)
    ∙ slice_of_get_or part (i + k) (copy buf i xs) (λ j p.
      ap (copy buf i xs) (add_assoc i k j)
      ∙ (copy_at buf i (k + j) xs (omega (arith, size))
          ∙ sym (get_or-take-drop n k j xs 0 (omega (arith, size)))))

pub get_or-slice : (i n k : ℕ) (buf : Buffer) → k < n → get_or (slice i n buf) k 0 ≡ buf (i + k)
get_or-slice i zero k buf h = elim h [ ]
get_or-slice i (suc n) zero buf h = rw add-zero refl
get_or-slice i (suc n) (suc k) buf h =
    get_or-slice (suc i) n k buf (omega arith) ∙ ap buf (omega arith)

pub slice_first : (m n : ℕ) (buf : Buffer) → m ≡ suc n → slice 0 m buf ≡ buf 0 ∷ slice 1 n buf
slice_first m n buf e = rw e refl
