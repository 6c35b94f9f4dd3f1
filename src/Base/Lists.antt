-- ===== src/Base/Lists.antt =====
-- Lists measured and indexed by native numbers, under the library's names.
use Prim.Native.Nat.{ℕ, zero, suc, ◌+◌, ◌≤◌, ◌<◌}
use mathlib.Core.Path.{◌≡◌, refl, ap, ◌∙◌}
use mathlib.Core.Bool.{Bool, true, ◌&&◌}
use mathlib.Core.List.{List, [], ◌∷◌, ◌++◌}
use native.Mathlib.Nat.{zero-add, suc-add}
use native.Mathlib.Omega.{arith}

module _ {ℓ} {A : Type ℓ} where
  abbrev pub length : List A → ℕ
  length [] = 0
  length (x ∷ xs) = suc (length xs)

  abbrev pub get_or : List A → ℕ → A → A
  get_or [] i d = d
  get_or (x ∷ xs) zero d = x
  get_or (x ∷ xs) (suc i) d = get_or xs i d

  abbrev pub take : ℕ → List A → List A
  take zero xs = []
  take (suc n) [] = []
  take (suc n) (x ∷ xs) = x ∷ take n xs

  abbrev pub drop : ℕ → List A → List A
  drop zero xs = xs
  drop (suc n) [] = []
  drop (suc n) (x ∷ xs) = drop n xs

  abbrev pub replicate : ℕ → A → List A
  replicate zero a = []
  replicate (suc n) a = a ∷ replicate n a

  pub length-append : (xs ys : List A) → length (xs ++ ys) ≡ length xs + length ys
  length-append [] ys = omega arith
  length-append (x ∷ xs) ys = omega (arith, length-append xs ys)

  pub take-nil : (n : ℕ) → ◌≡◌ {A = List A} (take n []) []
  take-nil zero = refl
  take-nil (suc n) = refl

  pub take-length : (xs : List A) → take (length xs) xs ≡ xs
  take-length [] = refl
  take-length (x ∷ xs) = ap (◌∷◌ x) (take-length xs)

  pub length-take-drop :
      (n k : ℕ) (xs : List A) → k + n ≤ length xs → length (take n (drop k xs)) ≡ n
  length-take-drop zero k xs h = refl
  length-take-drop (suc n) zero [] h = absurd (omega arith)
  length-take-drop (suc n) zero (x ∷ xs) h = omega (arith, length-take-drop n zero xs (omega arith))
  length-take-drop (suc n) (suc k) [] h = absurd (omega arith)
  length-take-drop (suc n) (suc k) (x ∷ xs) h = length-take-drop (suc n) k xs (omega arith)

  pub get_or-take-drop :
      (n k j : ℕ) (xs : List A) (d : A)
      → j < n
      → get_or (take n (drop k xs)) j d ≡ get_or xs (k + j) d
  get_or-take-drop zero k j xs d h = elim h [ ]
  get_or-take-drop (suc n) zero j [] d h = refl
  get_or-take-drop (suc n) zero zero (x ∷ xs) d h = refl
  get_or-take-drop (suc n) zero (suc j) (x ∷ xs) d h =
      rw (zero-add) (get_or-take-drop n zero j xs d (omega arith) ∙ rw (zero-add) refl)
  get_or-take-drop (suc n) (suc k) j [] d h = refl
  get_or-take-drop (suc n) (suc k) j (x ∷ xs) d h = rw suc-add (get_or-take-drop (suc n) k j xs d h)

  pub length-replicate : (n : ℕ) (a : A) → length (replicate n a) ≡ n
  length-replicate zero a = refl
  length-replicate (suc n) a = ap suc (length-replicate n a)

-- A test of every item.
abbrev pub all {ℓ} : {A : Type ℓ} → (A → Bool) → List A → Bool
all p [] = true
all p (x ∷ xs) = p x && all p xs

-- A predicate by recursion, which computes to tuples.
abbrev pub All {ℓ κ} : {A : Type ℓ} → (A → Type κ) → List A → Type κ
All P [] = Unit
All P (x ∷ xs) = P x × All P xs

pub all-append {ℓ} :
    {A : Type ℓ} (p : A → Bool) (xs ys : List A)
    → all p xs ≡ true
    → all p ys ≡ true
    → all p (xs ++ ys) ≡ true
all-append p [] ys first later = later
all-append p (x ∷ xs) ys first later = ground (arith, all-append p xs ys)
