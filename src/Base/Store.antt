-- ===== src/Base/Store.antt =====
-- Objects behind pointers: a map from addresses to values, with one entry written at a time.
use cardboard.Base.{ℕ, ◌≡◌, ◌≢◌, arith, ◌==◌, if◌then◌else◌}

module _ {ℓ} {A : Type ℓ} where
  abbrev pub update : (ℕ → A) → ℕ → A → ℕ → A
  update f k a j = if j == k then a else f j

  pub update_self : (f : ℕ → A) (k : ℕ) (a : A) → update f k a k ≡ a
  update_self f k a = ground arith

  pub update_ne : (f : ℕ → A) (k : ℕ) (a : A) (j : ℕ) → j ≢ k → update f k a j ≡ f j
  update_ne f k a j h = ground arith
