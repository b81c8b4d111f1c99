-- ===== src/Workspace/Edit/RoundTrip.antt =====
-- Adding a view and removing it again (cardboard/Workspace.cpp).
use cardboard.Base.{
  ℕ, zero, suc, ◌≡◌, ap, Bool, true, false, Option, List, [], ◌∷◌, arith, Bool-cases, inl, inr,
  insert_at,
}
use cardboard.Base.Count.{count, without, count-append, without_absent}
use cardboard.View.{Scene}
use cardboard.Workspace.{Column, Workspace, Env, holds}
use cardboard.Workspace.Edit.{
  new_column, insert_column, insert_floating, remove_from_columns, displace_view, place_view,
  add_view, remove_view,
}
use cardboard.Workspace.Edit.Columns.{
  remove_from_columns_cons, remove_from_columns_nil, any-tiles_true,
}
use cardboard.Workspace.Edit.Output.{tile_views, column_views, views_of}

absent-holds :
    (v : ℕ) (c : Column) (cs : List Column)
    → count v (column_views (c ∷ cs)) ≡ 0
    → (holds v c ≡ false) × (count v (column_views cs) ≡ 0)
absent-holds v c cs h = elim (Bool-cases (holds v c)) [
  | inl hit ↦ absurd (
      omega (
        arith,
        any-tiles_true v c.tiles hit,
        count-append v (tile_views c.tiles) (column_views cs),
      ))
  | inr miss ↦ (miss, omega (arith, count-append v (tile_views c.tiles) (column_views cs)))
]

drop_from_new : (v a : ℕ) (cs : List Column) → remove_from_columns v (new_column v a ∷ cs) ≡ cs
drop_from_new v a cs = ground (arith, remove_from_columns_cons v (new_column v a) cs)

remove-insert_at :
    (v a : ℕ) (cs : List Column) (i : ℕ)
    → count v (column_views cs) ≡ 0
    → remove_from_columns v (insert_at cs i (new_column v a)) ≡ cs
remove-insert_at v a cs zero h = drop_from_new v a cs
remove-insert_at v a [] (suc i) h = drop_from_new v a []
remove-insert_at v a (c ∷ cs) (suc i) h =
    let e = absent-holds v c cs h in
    rw (remove_from_columns_cons v c (insert_at cs i (new_column v a)), e.0)
      (ap (◌∷◌ c) (remove-insert_at v a cs i e.1))

without-insert_at :
    (v : ℕ) (xs : List ℕ) (i : ℕ) → count v xs ≡ 0 → without v (insert_at xs i v) ≡ xs
without-insert_at v xs zero h = ground (arith, without_absent v xs h)
without-insert_at v [] (suc i) h = ground arith
without-insert_at v (x ∷ xs) (suc i) h = ground (arith, without-insert_at v xs i)

remove_absent :
    (v : ℕ) (cs : List Column) → count v (column_views cs) ≡ 0 → remove_from_columns v cs ≡ cs
remove_absent v [] h = remove_from_columns_nil v
remove_absent v (c ∷ cs) h =
    let e = absent-holds v c cs h in
    rw (remove_from_columns_cons v c cs, e.0) (ap (◌∷◌ c) (remove_absent v cs e.1))

-- A view that is placed in a workspace where it is not, and then displaced, leaves it as it was.
pub displace-place_view :
    (v : ℕ) (next_to : Option ℕ) (floating : Bool) (ws : Workspace)
    → count v (views_of ws) ≡ 0
    → displace_view v (place_view v next_to floating ws) ≡ ws
unfolding displace_view place_view insert_column insert_floating
displace-place_view v next_to true ws h = rw (
  remove_absent v ws.columns
      (omega (arith, count-append v (column_views ws.columns) ws.floating_views)),
  without-insert_at v ws.floating_views _
      (omega (arith, count-append v (column_views ws.columns) ws.floating_views)),
)
displace-place_view v next_to false ws h = rw (
  remove-insert_at v _ ws.columns _
      (omega (arith, count-append v (column_views ws.columns) ws.floating_views)),
  without_absent v ws.floating_views
      (omega (arith, count-append v (column_views ws.columns) ws.floating_views)),
)

-- Adding a view that the workspace does not have, tiled or floating, and removing it again, both as
-- a transfer, gives back the workspace.
pub remove_view-add_view :
    (env : Env) (v : ℕ) (next_to : Option ℕ) (floating : Bool) (ws : Workspace) (s t : Scene)
    → count v (views_of ws) ≡ 0
    → (remove_view env v true (add_view env v next_to floating true ws s).0 t).0 ≡ ws
unfolding remove_view add_view
remove_view-add_view env v next_to floating ws s t h = displace-place_view v next_to floating ws h
