-- ===== src/Base/Count.antt =====
-- How often a number stands in a list, and the list without it.
use cardboard.Base.{
  ℕ, suc, ◌+◌, ◌≡◌, refl, false, not, List, [], ◌∷◌, ◌++◌, arith, ◌==◌, if◌then◌else◌, any, keep_if,
}

abbrev pub count : ℕ → List ℕ → ℕ
count v [] = 0
count v (x ∷ xs) = if x == v then suc (count v xs) else count v xs

-- The list without a value.
abbrev pub without : ℕ → List ℕ → List ℕ
without v xs = keep_if (λ w. not (w == v)) xs

pub count-append : (v : ℕ) (xs ys : List ℕ) → count v (xs ++ ys) ≡ count v xs + count v ys
count-append v [] ys = omega arith
count-append v (x ∷ xs) ys = ground (arith, count-append v xs ys)

pub without_absent : (v : ℕ) (xs : List ℕ) → count v xs ≡ 0 → without v xs ≡ xs
without_absent v [] h = refl
without_absent v (x ∷ xs) h = ground (arith, without_absent v xs)

pub count-without :
    (w v : ℕ) (xs : List ℕ) → count w (without v xs) ≡ (if w == v then 0 else count w xs)
count-without w v [] = ground arith
count-without w v (x ∷ xs) = ground (arith, count-without w v xs)

pub any-count_zero : (v : ℕ) (xs : List ℕ) → any (λ w. w == v) xs ≡ false → count v xs ≡ 0
any-count_zero v [] h = refl
any-count_zero v (x ∷ xs) h = ground (arith, any-count_zero v xs)
