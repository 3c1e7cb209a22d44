-- ===== src/Prelude/Lists.antt =====
-- Lists measured and indexed by native numbers, under the library's names.
use Prim.Native.Nat.{ℕ, zero, suc, ◌+◌, ◌≤◌}
use mathlib.Core.Path.{◌≡◌, refl, ap}
use mathlib.Core.Logic.{◌⊎◌, inl, inr}
use mathlib.Core.List.{List, [], ◌∷◌, ◌++◌}
use native.Mathlib.Omega.{arith}

module _ {ℓ} {A : Type ℓ} where
  abbrev pub length : List A → ℕ
  length [] = 0
  length (x ∷ xs) = suc (length xs)

  abbrev pub get_or : List A → ℕ → A → A
  get_or [] i d = d
  get_or (x ∷ xs) zero d = x
  get_or (x ∷ xs) (suc i) d = get_or xs i d

  abbrev pub take : ℕ → List A → List A
  take zero xs = []
  take (suc n) [] = []
  take (suc n) (x ∷ xs) = x ∷ take n xs

  abbrev pub drop : ℕ → List A → List A
  drop zero xs = xs
  drop (suc n) [] = []
  drop (suc n) (x ∷ xs) = drop n xs

  pub take-append-drop : (n : ℕ) (xs : List A) → take n xs ++ drop n xs ≡ xs
  take-append-drop zero xs = refl
  take-append-drop (suc n) [] = refl
  take-append-drop (suc n) (x ∷ xs) = ap (◌∷◌ x) (take-append-drop n xs)

  pub length-drop : (n : ℕ) (xs : List A) → length (drop n xs) ≤ length xs
  length-drop zero xs = omega arith
  length-drop (suc n) [] = omega arith
  length-drop (suc n) (x ∷ xs) = omega (arith, length-drop n xs)

  abbrev pub replicate : ℕ → A → List A
  replicate zero a = []
  replicate (suc n) a = a ∷ replicate n a

  pub length-append : (xs ys : List A) → length (xs ++ ys) ≡ length xs + length ys
  length-append [] ys = omega arith
  length-append (x ∷ xs) ys = omega (arith, length-append xs ys)

  pub drop-append : (xs ys : List A) → drop (length xs) (xs ++ ys) ≡ ys
  drop-append [] ys = refl
  drop-append (x ∷ xs) ys = drop-append xs ys

  pub length-replicate : (n : ℕ) (a : A) → length (replicate n a) ≡ n
  length-replicate zero a = refl
  length-replicate (suc n) a = ap suc (length-replicate n a)

  -- A copy moved from the end of a list to the front of the copies behind it.
  pub append_replicate :
      (xs : List A) (a : A) (n : ℕ) → (xs ++ a ∷ []) ++ replicate n a ≡ xs ++ replicate (suc n) a
  append_replicate [] a n = refl
  append_replicate (x ∷ xs) a n = ap (◌∷◌ x) (append_replicate xs a n)

-- Membership, with the place.
pub data In {ℓ} {A : Type ℓ} (a : A) : List A → Type ℓ where
  first : {x : A} {xs : List A} → x ≡ a → In a (x ∷ xs)
  later : {x : A} {xs : List A} → In a xs → In a (x ∷ xs)

pub In-append_left : {A : Type 0} {a : A} (xs ys : List A) → In a xs → In a (xs ++ ys)
In-append_left [] ys h = elim h [ ]
In-append_left (x ∷ xs) ys (first e) = first e
In-append_left (x ∷ xs) ys (later h) = later (In-append_left xs ys h)

pub In-append_right : {A : Type 0} {a : A} (xs ys : List A) → In a ys → In a (xs ++ ys)
In-append_right [] ys h = h
In-append_right (x ∷ xs) ys h = later (In-append_right xs ys h)

pub In-either : {A : Type 0} {a : A} (xs ys : List A) → In a (xs ++ ys) → In a xs ⊎ In a ys
In-either [] ys h = inr h
In-either (x ∷ xs) ys (first e) = inl (first e)
In-either (x ∷ xs) ys (later h) = elim (In-either xs ys h) [
  | inl front ↦ inl (later front)
  | inr back ↦ inr back
]
