-- ===== src/Base/Lists.antt =====
-- Lists measured and indexed by native numbers. A position stands for a `std::list` iterator: the
-- length of the list is `end()`.
use Prim.Native.Nat.{ℕ, zero, suc, ◌+◌, ◌≤◌}
use mathlib.Core.Path.{◌≡◌, refl, ap}
use mathlib.Core.Logic.{◌≢◌, ◌⊎◌, inl, inr}
use mathlib.Core.Bool.{Bool, true, false}
use mathlib.Core.List.{List, [], ◌∷◌, ◌++◌}
use mathlib.Core.Option.{Option, none, some}
use native.Mathlib.Omega.{arith}
use cardboard.Base.Tests.{if◌then◌else◌}

module _ {ℓ} {A : Type ℓ} where
  abbrev pub length : List A → ℕ
  length [] = 0
  length (x ∷ xs) = suc (length xs)

  abbrev pub get_elem? : List A → ℕ → Option A
  get_elem? [] i = none
  get_elem? (x ∷ xs) zero = some x
  get_elem? (x ∷ xs) (suc i) = get_elem? xs i

  -- A write out of bounds changes nothing.
  abbrev pub set : List A → ℕ → A → List A
  set [] i v = []
  set (x ∷ xs) zero v = v ∷ xs
  set (x ∷ xs) (suc i) v = x ∷ set xs i v

  -- `insert` and `emplace` of `std::list`: the new element stands before position `i`.
  abbrev pub insert_at : List A → ℕ → A → List A
  insert_at xs zero v = v ∷ xs
  insert_at [] (suc i) v = v ∷ []
  insert_at (x ∷ xs) (suc i) v = x ∷ insert_at xs i v

  abbrev pub erase_at : List A → ℕ → List A
  erase_at [] i = []
  erase_at (x ∷ xs) zero = xs
  erase_at (x ∷ xs) (suc i) = x ∷ erase_at xs i

  abbrev pub take : ℕ → List A → List A
  take zero xs = []
  take (suc n) [] = []
  take (suc n) (x ∷ xs) = x ∷ take n xs

  abbrev pub drop : ℕ → List A → List A
  drop zero xs = xs
  drop (suc n) [] = []
  drop (suc n) (x ∷ xs) = drop n xs

  -- `std::find_if`: the position of the first element that passes, or `end()`.
  abbrev pub find_position : (A → Bool) → List A → ℕ
  find_position p [] = 0
  find_position p (x ∷ xs) = if p x then 0 else suc (find_position p xs)

  -- The elements that pass, in order.
  abbrev pub keep_if : (A → Bool) → List A → List A
  keep_if p [] = []
  keep_if p (x ∷ xs) = if p x then x ∷ keep_if p xs else keep_if p xs

  abbrev pub any : (A → Bool) → List A → Bool
  any p [] = false
  any p (x ∷ xs) = if p x then true else any p xs

  abbrev pub last? : List A → Option A
  last? [] = none
  last? (x ∷ []) = some x
  last? (x ∷ y ∷ xs) = last? (y ∷ xs)

  abbrev pub first? : List A → Option A
  first? [] = none
  first? (x ∷ xs) = some x

  pub length-append : (xs ys : List A) → length (xs ++ ys) ≡ length xs + length ys
  length-append [] ys = omega arith
  length-append (x ∷ xs) ys = omega (arith, length-append xs ys)

module _ {ℓ} {A : Type ℓ} where
  pub keep_if-append :
      (p : A → Bool) (xs ys : List A) → keep_if p (xs ++ ys) ≡ keep_if p xs ++ keep_if p ys
  keep_if-append p [] ys = refl
  keep_if-append p (x ∷ xs) ys = ground (arith, keep_if-append p xs ys)

  pub length-keep_if-le : (p : A → Bool) (xs : List A) → length (keep_if p xs) ≤ length xs
  length-keep_if-le p [] = omega arith
  length-keep_if-le p (x ∷ xs) = ground (arith, length-keep_if-le p xs)

  pub insert_at_middle :
      (xs ys : List A) (v : A) → insert_at (xs ++ ys) (length xs) v ≡ xs ++ v ∷ ys
  insert_at_middle [] ys v = refl
  insert_at_middle (x ∷ xs) ys v = ap (◌∷◌ x) (insert_at_middle xs ys v)

  pub get_elem?-append : (xs ys : List A) (y : A) → get_elem? (xs ++ y ∷ ys) (length xs) ≡ some y
  get_elem?-append [] ys y = refl
  get_elem?-append (x ∷ xs) ys y = get_elem?-append xs ys y

  pub set-append : (xs ys : List A) (y v : A) → set (xs ++ y ∷ ys) (length xs) v ≡ xs ++ v ∷ ys
  set-append [] ys y v = refl
  set-append (x ∷ xs) ys y v = ap (◌∷◌ x) (set-append xs ys y v)

  pub erase_at-append : (xs ys : List A) (y : A) → erase_at (xs ++ y ∷ ys) (length xs) ≡ xs ++ ys
  erase_at-append [] ys y = refl
  erase_at-append (x ∷ xs) ys y = ap (◌∷◌ x) (erase_at-append xs ys y)

  pub get_elem?-set_self :
      (xs : List A) (i : ℕ) (a b : A) → get_elem? xs i ≡ some a → get_elem? (set xs i b) i ≡ some b
  get_elem?-set_self [] i a b h = ground arith
  get_elem?-set_self (x ∷ xs) zero a b h = refl
  get_elem?-set_self (x ∷ xs) (suc i) a b h = get_elem?-set_self xs i a b h

  pub get_elem?-set_ne :
      (xs : List A) (i j : ℕ) (b : A) → (j ≢ i) → get_elem? (set xs i b) j ≡ get_elem? xs j
  get_elem?-set_ne [] i j b h = refl
  get_elem?-set_ne (x ∷ xs) zero zero b h = ground arith
  get_elem?-set_ne (x ∷ xs) zero (suc j) b h = refl
  get_elem?-set_ne (x ∷ xs) (suc i) zero b h = refl
  get_elem?-set_ne (x ∷ xs) (suc i) (suc j) b h = get_elem?-set_ne xs i j b (ground arith)

  pub set-set :
      (xs : List A) (i : ℕ) (a b : A) → get_elem? xs i ≡ some a → set (set xs i b) i a ≡ xs
  set-set [] i a b h = refl
  set-set (x ∷ xs) zero a b h = ground arith
  set-set (x ∷ xs) (suc i) a b h = ap (◌∷◌ x) (set-set xs i a b h)

  -- What stands at a position after a write at another or at the same.
  pub set_cases :
      (xs : List A) (i j : ℕ) (a b c : A)
      → get_elem? xs i ≡ some a
      → get_elem? (set xs i b) j ≡ some c
      → ((j ≡ i) × (c ≡ b)) ⊎ ((j ≢ i) × (get_elem? xs j ≡ some c))
  set_cases [] i j a b c h e = ground arith
  set_cases (x ∷ xs) zero zero a b c h e = inl (refl, ground arith)
  set_cases (x ∷ xs) zero (suc j) a b c h e = inr (ground arith, e)
  set_cases (x ∷ xs) (suc i) zero a b c h e = inr (ground arith, e)
  set_cases (x ∷ xs) (suc i) (suc j) a b c h e = elim (set_cases xs i j a b c h e) [
    | inl (same, new) ↦ inl (ap suc same, new)
    | inr (other, old) ↦ inr (ground arith, old)
  ]
