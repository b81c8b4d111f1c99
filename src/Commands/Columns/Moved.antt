-- ===== src/Commands/Columns/Moved.antt =====
-- `move` of cardboard/commands/commands.h loses no view of the columns.
use cardboard.Base.{
  ℕ, zero, suc, ◌+◌, ◌≡◌, refl, ap, Option, none, some, List, [], ◌∷◌, arith, get_elem?, set,
  length, inl, inr, if◌then◌else◌, ◌==◌, find_position,
}
use mathlib.Core.Logic.{◌⊎◌}
use cardboard.Base.Int.{ℤ}
use cardboard.Base.Count.{count, count-append}
use cardboard.Workspace.{Tile, Column}
use cardboard.Workspace.Edit.Output.{column_views, tile_views}
use cardboard.Commands.Columns.{
  swap_elements, swap_found, swap_tiles, swap_columns, other_column, other_tile, move_tile,
  move_tile_at, target_column, moved_aside, moved_columns,
}

abbrev one_if : ℕ → Tile → ℕ
one_if u t = if t.view == u then 1 else 0

count-tiles_set :
    (u : ℕ) (ts : List Tile) (i : ℕ) (t new : Tile)
    → get_elem? ts i ≡ some t
    → count u (tile_views (set ts i new)) + one_if u t ≡ count u (tile_views ts) + one_if u new
count-tiles_set u [] i t new e = absurd (ground (arith, e))
count-tiles_set u (x ∷ ts) zero t new e = ground (arith, e)
count-tiles_set u (x ∷ ts) (suc i) t new e = ground (arith, count-tiles_set u ts i t new e)

count-columns_set :
    (u : ℕ) (cs : List Column) (i : ℕ) (c new : Column)
    → get_elem? cs i ≡ some c
    → count u (column_views (set cs i new)) + count u (tile_views c.tiles)
      ≡ count u (column_views cs) + count u (tile_views new.tiles)
count-columns_set u [] i c new e = absurd (ground (arith, e))
count-columns_set u (x ∷ cs) zero c new e = ground (
  arith,
  e,
  count-append u (tile_views new.tiles) (column_views cs),
  count-append u (tile_views x.tiles) (column_views cs),
)
count-columns_set u (x ∷ cs) (suc i) c new e = ground (
  arith,
  count-columns_set u cs i c new e,
  count-append u (tile_views x.tiles) (column_views (set cs i new)),
  count-append u (tile_views x.tiles) (column_views cs),
)

-- What stands at a position after a write at another, or at the same, where both were there.
get_elem?-set_there {ℓ} :
    {A : Type ℓ} (xs : List A) (i j : ℕ) (a b c : A)
    → get_elem? xs i ≡ some a
    → get_elem? xs j ≡ some b
    → (d : A) × (get_elem? (set xs i c) j ≡ some d) × ((d ≡ b) ⊎ ((d ≡ c) × (a ≡ b)))
get_elem?-set_there [] i j a b c e f = absurd (cc)
get_elem?-set_there (x ∷ xs) zero zero a b c e f = (c, refl, inr (refl, cc))
get_elem?-set_there (x ∷ xs) zero (suc j) a b c e f = (b, f, inl refl)
get_elem?-set_there (x ∷ xs) (suc i) zero a b c e f = (b, f, inl refl)
get_elem?-set_there (x ∷ xs) (suc i) (suc j) a b c e f = get_elem?-set_there xs i j a b c e f

count-swap_elements :
    (u i j : ℕ) (ts : List Tile)
    → count u (tile_views (swap_elements i j ts)) ≡ count u (tile_views ts)
count-swap_elements u i j ts = split (get_elem? ts i) refl (get_elem? ts j) refl
  where
    split :
        (o : Option Tile)
        → get_elem? ts i ≡ o
        → (q : Option Tile) → get_elem? ts j ≡ q
        → count u (tile_views (swap_found i j ts o q)) ≡ count u (tile_views ts)
    split none e q f = refl
    split (some a) e none f = refl
    split (some a) e (some b) f =
        let (d, there, same) = get_elem?-set_there ts i j a b b e f in
        ground
          (arith, count-tiles_set u ts i a b e, count-tiles_set u (set ts i b) j d a there, same)

count-swap_columns :
    (u i j : ℕ) (cs : List Column)
    → count u (column_views (swap_columns i j cs)) ≡ count u (column_views cs)
unfolding swap_columns
count-swap_columns u i j cs = split (get_elem? cs i) refl (get_elem? cs j) refl
  where
    split :
        (o : Option Column)
        → get_elem? cs i ≡ o
        → (q : Option Column) → get_elem? cs j ≡ q
        → count u (column_views (swap_tiles i j cs o q)) ≡ count u (column_views cs)
    split none e q f = refl
    split (some a) e none f = refl
    split (some a) e (some b) f =
        let a' = record a { tiles = b.tiles } in
        let b' = record b { tiles = a.tiles } in
        let (d, there, same) = get_elem?-set_there cs i j a b a' e f in
        let kept : count u (tile_views d.tiles) ≡ count u (tile_views b.tiles) = (elim same [
          | inl e' ↦ ap (λ (c : Column). count u (tile_views c.tiles)) e'
          | inr (e', f') ↦ ap (λ (c : Column). count u (tile_views c.tiles)) e'
        ]) in
        omega (
          arith,
          count-columns_set u cs i a a' e,
          count-columns_set u (set cs i a') j d b' there,
          kept,
        )

count-move_tile :
    (u v : ℕ) (dy : ℤ) (ts : List Tile)
    → count u (tile_views (move_tile v dy ts)) ≡ count u (tile_views ts)
unfolding move_tile
count-move_tile u v dy ts =
    let i = find_position (λ (t : Tile). t.view == v) ts in
    ground (arith, count-swap_elements u i (other_tile dy i (length ts)) ts)

-- Moving a view that is in the column at position `i`, to the side and in its column, keeps all
-- views of the columns, each as often as it was.
pub count-moved_columns :
    (u v : ℕ) (dx dy : ℤ) (i : ℕ) (cs : List Column)
    → count u (column_views (moved_columns v dx dy i cs)) ≡ count u (column_views cs)
unfolding moved_columns
count-moved_columns u v dx dy i cs =
    within (moved_aside dx i cs) (aside (other_column dx i (length cs)))
  where
    aside :
        (o : Option ℕ)
        → count u (column_views (elim o [ none ↦ cs | some j ↦ swap_columns j i cs ]))
          ≡ count u (column_views cs)
    aside none = refl
    aside (some j) = count-swap_columns u j i cs

    k : ℕ
    k = target_column dx i (length cs)

    within :
        (cs' : List Column)
        → count u (column_views cs') ≡ count u (column_views cs)
        → count u (column_views (move_tile_at v dy k cs' (get_elem? cs' k)))
          ≡ count u (column_views cs)
    within cs' h = found (get_elem? cs' k) refl
      where
        found :
            (o : Option Column)
            → get_elem? cs' k ≡ o
            → count u (column_views (move_tile_at v dy k cs' o)) ≡ count u (column_views cs)
        found none e = h
        found (some c) e = omega (
          arith,
          count-columns_set u cs' k c (record c { tiles = move_tile v dy c.tiles }) e,
          count-move_tile u v dy c.tiles,
          h,
        )
