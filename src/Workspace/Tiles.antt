-- ===== src/Workspace/Tiles.antt =====
-- The iterator of `Column::MappedAndNormal` (cardboard/Workspace.cpp) against a plain filter.
use cardboard.Base.{
  ℕ, zero, suc, ◌≤◌, ◌≡◌, refl, ap, List, [], ◌∷◌, length, keep_if, arith, Bool-cases, inl, inr,
}
use cardboard.View.{View}
use cardboard.Workspace.{Tile, is_on_screen, skip, begin, visit, mapped_and_normal_tiles}

keep_if-skip :
    (view : ℕ → View) (ts : List Tile)
    → keep_if (is_on_screen view) (skip view ts) ≡ keep_if (is_on_screen view) ts
unfolding skip
keep_if-skip view [] = refl
keep_if-skip view (t ∷ ts) = ground (arith, keep_if-skip view ts)

visit-skip :
    (f : ℕ) (view : ℕ → View) (ts : List Tile)
    → length ts ≤ f
    → visit f view (skip view ts) ≡ keep_if (is_on_screen view) ts
unfolding visit
visit-skip zero view [] h = refl
visit-skip (suc f) view [] h = refl
visit-skip zero view (t ∷ ts) h = absurd (omega arith)
visit-skip (suc f) view (t ∷ ts) h = elim (Bool-cases (is_on_screen view t)) [
  | inl on ↦ rw (on, skip) (ap (◌∷◌ t) (visit-skip f view ts (omega arith)))
  | inr off ↦ rw (off, skip) (visit-skip (suc f) view ts (omega arith))
]

begin-skip : (view : ℕ → View) (ts : List Tile) → begin view ts ≡ skip view ts
unfolding begin
begin-skip view [] = refl
begin-skip view (t ∷ ts) = refl

-- A loop over `mapped_and_normal_tiles()` visits exactly the tiles of the column whose views are
-- mapped and in normal state, in their order, each once.
pub mapped_and_normal_tiles-keep_if :
    (view : ℕ → View) (ts : List Tile)
    → mapped_and_normal_tiles view ts ≡ keep_if (is_on_screen view) ts
unfolding mapped_and_normal_tiles
mapped_and_normal_tiles-keep_if view ts =
    rw (begin-skip view ts) (visit-skip (length ts) view ts (omega arith))
