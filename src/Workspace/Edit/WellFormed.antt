-- ===== src/Workspace/Edit/WellFormed.antt =====
-- The invariant of a workspace, and that the operations of cardboard/Workspace.cpp keep it.
use cardboard.Base.{
  ℕ, zero, suc, ◌≤◌, ◌≡◌, ◌≢◌, refl, ap, Bool, true, false, not, Option, List, [], ◌∷◌, arith, ◌==◌,
  any, keep_if, Bool-cases, inl, inr, insert_at,
}
use cardboard.Base.Count.{count, count-without}
use cardboard.Workspace.{Tile, Column, Workspace, holds}
use cardboard.Workspace.Edit.{
  fresh_address, new_column, insert_column, remove_from_columns, displace_view, place_view,
}
use cardboard.Workspace.Edit.Columns.{
  drop_from, remove_from_columns_cons, remove_from_columns_nil, views_of-displace_view,
  count-place_view,
}
use cardboard.Workspace.Edit.Output.{views_of}

abbrev pub IsOwned : ℕ → List Tile → Type 0
IsOwned a [] = Unit {0}
IsOwned a (t ∷ ts) = (t.column ≡ a) × IsOwned a ts

abbrev pub has_address : ℕ → Column → Bool
has_address a c = c.address == a

-- No column is empty, each tile points to its column, and no two columns have one address.
abbrev pub IsTidy : List Column → Type 0
IsTidy [] = Unit {0}
IsTidy (c ∷ cs) =
    (c.tiles ≢ [])
    × IsOwned c.address c.tiles
    × (any (has_address c.address) cs ≡ false)
    × IsTidy cs

-- Besides, no view stands twice in the workspace.
pub record IsWellFormed (ws : Workspace) : Type 0 where
  pub tidy : IsTidy ws.columns
  pub distinct : (v : ℕ) → count v (views_of ws) ≤ 1

fresh_above : (a : ℕ) (cs : List Column) → fresh_address cs ≤ a → any (has_address a) cs ≡ false
fresh_above a [] h = refl
fresh_above a (c ∷ cs) h = ground (arith, fresh_above a cs)

any-insert_at :
    (a : ℕ) (new : Column) (cs : List Column) (i : ℕ)
    → (new.address == a) ≡ false
    → any (has_address a) cs ≡ false
    → any (has_address a) (insert_at cs i new) ≡ false
any-insert_at a new cs zero h k = ground arith
any-insert_at a new [] (suc i) h k = ground arith
any-insert_at a new (c ∷ cs) (suc i) h k = ground (arith, any-insert_at a new cs i h)

insert_at-IsTidy :
    (new : Column) (cs : List Column) (i : ℕ)
    → new.tiles ≢ []
    → IsOwned new.address new.tiles
    → any (has_address new.address) cs ≡ false
    → IsTidy cs
    → IsTidy (insert_at cs i new)
insert_at-IsTidy new cs zero full owned fresh h = (full, owned, fresh, h)
insert_at-IsTidy new [] (suc i) full owned fresh h = (full, owned, refl, tt)
insert_at-IsTidy new (c ∷ cs) (suc i) full owned fresh h = (
  h.0,
  h.1,
  any-insert_at c.address new cs i (ground arith) h.2,
  insert_at-IsTidy new cs i full owned (ground arith) h.3,
)

place_view-IsTidy :
    (v : ℕ) (next_to : Option ℕ) (floating : Bool) (ws : Workspace)
    → IsTidy ws.columns
    → IsTidy (place_view v next_to floating ws).columns
unfolding place_view insert_column
place_view-IsTidy v next_to true ws h = h
place_view-IsTidy v next_to false ws h =
    insert_at-IsTidy (new_column v (fresh_address ws.columns)) ws.columns _ (λ e. cc) (refl, tt)
      (fresh_above (fresh_address ws.columns) ws.columns (omega arith)) h

any-remove :
    (a v : ℕ) (cs : List Column)
    → any (has_address a) cs ≡ false
    → any (has_address a) (remove_from_columns v cs) ≡ false
any-remove a v [] h = ap (any (has_address a)) (remove_from_columns_nil v)
any-remove a v (c ∷ cs) h = ground (arith, remove_from_columns_cons v c cs, any-remove a v cs)

IsOwned-keep_if :
    (a v : ℕ) (ts : List Tile)
    → IsOwned a ts
    → IsOwned a (keep_if (λ (t : Tile). not (t.view == v)) ts)
IsOwned-keep_if a v [] h = tt
IsOwned-keep_if a v (t ∷ ts) h = ground (arith, IsOwned-keep_if a v ts h.1)

drop_from-IsTidy :
    (v : ℕ) (c : Column) (cs : List Column) → IsTidy (c ∷ cs) → IsTidy (drop_from v c cs)
drop_from-IsTidy v c cs h = ground (arith, IsOwned-keep_if c.address v c.tiles h.1)

remove-IsTidy : (v : ℕ) (cs : List Column) → IsTidy cs → IsTidy (remove_from_columns v cs)
remove-IsTidy v [] h = rw (remove_from_columns_nil v) tt
remove-IsTidy v (c ∷ cs) h = rw (remove_from_columns_cons v c cs) (elim (Bool-cases (holds v c)) [
  | inl hit ↦ rw hit (drop_from-IsTidy v c cs h)
  | inr miss ↦ rw miss (h.0, h.1, any-remove c.address v cs h.2, remove-IsTidy v cs h.3)
])

pub place_view-IsWellFormed :
    (v : ℕ) (next_to : Option ℕ) (floating : Bool) (ws : Workspace)
    → count v (views_of ws) ≡ 0
    → IsWellFormed ws
    → IsWellFormed (place_view v next_to floating ws)
place_view-IsWellFormed v next_to floating ws new h = record {
  tidy = place_view-IsTidy v next_to floating ws h.tidy;
  distinct = λ w. ground (arith, count-place_view w v next_to floating ws, h.distinct w);
}

pub displace_view-IsWellFormed :
    (v : ℕ) (ws : Workspace) → IsWellFormed ws → IsWellFormed (displace_view v ws)
unfolding displace_view
displace_view-IsWellFormed v ws h = record {
  tidy = remove-IsTidy v ws.columns h.tidy;
  distinct = λ w. ground (
    arith,
    ap (count w) (views_of-displace_view v ws (h.distinct v)),
    count-without w v (views_of ws),
    h.distinct w,
  );
}
