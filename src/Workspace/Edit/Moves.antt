-- ===== src/Workspace/Edit/Moves.antt =====
-- `insert_into_column` and `pop_from_column` of cardboard/Workspace.cpp: a view changes its column.
use cardboard.Base.{
  ℕ, suc, ◌≤◌, ◌≡◌, ◌≢◌, refl, ap, ◌∙◌, true, false, Option, none, some, List, [], ◌∷◌, ◌++◌, arith,
  ◌==◌, if◌then◌else◌, any, Bool-cases, inl, inr, last?, first?, length, ltb,
}
use cardboard.Base.Count.{count, count-append, count-without}
use cardboard.View.{Scene}
use cardboard.Workspace.{Tile, Column, Workspace, Env}
use cardboard.Workspace.Edit.{
  new_tile, displace_view, place_view, add_view, remove_view, with_tile, push_at, push_tile,
  insert_into_column, pop_from_column,
}
use cardboard.Workspace.Edit.Columns.{views_of-displace_view}
use cardboard.Workspace.Edit.Output.{tile_views, column_views, views_of}
use cardboard.Workspace.Edit.WellFormed.{
  IsOwned, has_address, IsTidy, IsWellFormed, displace_view-IsWellFormed, place_view-IsWellFormed,
}

-- The columns with a view added at the bottom of the one that has an address.
abbrev pub push_to : ℕ → ℕ → List Column → List Column
push_to v a [] = []
push_to v a (c ∷ cs) = if has_address a c then with_tile v c ∷ cs else c ∷ push_to v a cs

abbrev pushed : ℕ → ℕ → List Column → Option (List Column)
pushed v a cs = if any (has_address a) cs then some (push_to v a cs) else none

abbrev before_pushed : Column → Option (List Column) → Option (List Column)
before_pushed c none = none
before_pushed c (some cs) = some (c ∷ cs)

push_at-suc :
    (v i : ℕ) (c : Column) (cs : List Column) (o : Option Column)
    → push_at v (suc i) (c ∷ cs) o ≡ before_pushed c (push_at v i cs o)
push_at-suc v i c cs none = refl
push_at-suc v i c cs (some d) = refl

push_tile-pushed : (v a : ℕ) (cs : List Column) → push_tile v a cs ≡ pushed v a cs
unfolding push_tile
push_tile-pushed v a [] = refl
push_tile-pushed v a (c ∷ cs) = elim (Bool-cases (c.address == a)) [
  | inl hit ↦ rw hit
  | inr miss ↦
      rw miss
        (push_at-suc v _ c cs _ ∙ ap (before_pushed c) (push_tile-pushed v a cs) ∙ ground arith)
]

tile_views-append : (xs ys : List Tile) → tile_views (xs ++ ys) ≡ tile_views xs ++ tile_views ys
tile_views-append [] ys = refl
tile_views-append (x ∷ xs) ys = ap (◌∷◌ x.view) (tile_views-append xs ys)

count-with_tile :
    (w v : ℕ) (c : Column)
    → count w (tile_views (with_tile v c).tiles) ≡ count w (v ∷ tile_views c.tiles)
count-with_tile w v c = ground (
  arith,
  ap (count w) (tile_views-append c.tiles (new_tile v c.address ∷ [])),
  count-append w (tile_views c.tiles) (v ∷ []),
)

count-push_to :
    (w v a : ℕ) (cs : List Column)
    → any (has_address a) cs ≡ true
    → count w (column_views (push_to v a cs)) ≡ count w (v ∷ column_views cs)
count-push_to w v a [] h = cc
count-push_to w v a (c ∷ cs) h = ground (
  arith,
  count-with_tile w v c,
  count-append w (tile_views c.tiles) (column_views cs),
  count-append w (tile_views (with_tile v c).tiles) (column_views cs),
  count-append w (tile_views c.tiles) (column_views (push_to v a cs)),
  count-push_to w v a cs,
)

any-push_to :
    (b v a : ℕ) (cs : List Column)
    → any (has_address b) cs ≡ false
    → any (has_address b) (push_to v a cs) ≡ false
any-push_to b v a [] h = refl
any-push_to b v a (c ∷ cs) h = ground (arith, any-push_to b v a cs)

IsOwned-append :
    (a : ℕ) (ts : List Tile) (t : Tile) → IsOwned a ts → t.column ≡ a → IsOwned a (ts ++ t ∷ [])
IsOwned-append a [] t h e = (e, tt)
IsOwned-append a (x ∷ xs) t h e = (h.0, IsOwned-append a xs t h.1 e)

append-ne-nil : (ts : List Tile) (t : Tile) → ts ++ t ∷ [] ≢ []
append-ne-nil [] t e = cc
append-ne-nil (x ∷ ts) t e = cc

push_to-IsTidy : (v a : ℕ) (cs : List Column) → IsTidy cs → IsTidy (push_to v a cs)
push_to-IsTidy v a [] h = tt
push_to-IsTidy v a (c ∷ cs) h = elim (Bool-cases (c.address == a)) [
  | inl hit ↦ rw hit (
    append-ne-nil c.tiles (new_tile v c.address),
    IsOwned-append c.address c.tiles (new_tile v c.address) h.1 refl,
    h.2,
    h.3,
  )
  | inr miss ↦ rw miss (h.0, h.1, any-push_to c.address v a cs h.2, push_to-IsTidy v a cs h.3)
]

-- The workspace after `insert_into_column`.
abbrev pub inserted : ℕ → ℕ → Workspace → Workspace
inserted v a ws = record (displace_view v ws) { columns = push_to v a (displace_view v ws).columns }

abbrev pub workspace_of : Option (Workspace × Scene) → Option Workspace
workspace_of none = none
workspace_of (some (ws, s)) = some ws

-- `insert_into_column` takes the view from its place to the bottom of the column, and nothing else
-- moves; it succeeds exactly if the column is still there when the view has left its own.
pub insert_into_column-inserted :
    (env : Env) (v : ℕ) (c : Column) (ws : Workspace) (s : Scene)
    → workspace_of (insert_into_column env v c ws s) ≡ (
        if any (has_address c.address) (displace_view v ws).columns
        then some (inserted v c.address ws)
        else none)
unfolding insert_into_column remove_view
insert_into_column-inserted env v c ws s =
    elim (Bool-cases (any (has_address c.address) (displace_view v ws).columns)) [
      | inl there ↦ rw (push_tile-pushed v c.address (displace_view v ws).columns, there)
      | inr gone ↦ rw (push_tile-pushed v c.address (displace_view v ws).columns, gone)
    ]

count-inserted :
    (w v a : ℕ) (ws : Workspace)
    → any (has_address a) (displace_view v ws).columns ≡ true
    → count w (views_of (inserted v a ws)) ≡ count w (v ∷ views_of (displace_view v ws))
count-inserted w v a ws h =
    let ws' = displace_view v ws in
    ground (
      arith,
      count-append w (column_views (push_to v a ws'.columns)) ws'.floating_views,
      count-append w (column_views ws'.columns) ws'.floating_views,
      count-push_to w v a ws'.columns h,
    )

-- The views of the workspace stay the same, as a multiset, and it stays well-formed.
pub inserted-IsWellFormed :
    (v a : ℕ) (ws : Workspace)
    → any (has_address a) (displace_view v ws).columns ≡ true
    → count v (views_of ws) ≡ 1
    → IsWellFormed ws
    → IsWellFormed (inserted v a ws)
      × ((w : ℕ) → count w (views_of (inserted v a ws)) ≡ count w (views_of ws))
inserted-IsWellFormed v a ws there once h =
    let d = displace_view-IsWellFormed v ws h in
    let same : (w : ℕ) → count w (views_of (inserted v a ws)) ≡ count w (views_of ws) = λ w.
      ground (
        arith,
        count-inserted w v a ws there,
        ap (count w) (views_of-displace_view v ws (h.distinct v)),
        count-without w v (views_of ws),
      ) in
    (
      record {
        tidy = push_to-IsTidy v a (displace_view v ws).columns d.tidy;
        distinct = λ w. ground (arith, same w, h.distinct w);
      },
      same,
    )

tiles_back :
    (t : Tile) (ts : List Tile)
    → (x : Tile) × (last? (t ∷ ts) ≡ some x) × (1 ≤ count x.view (tile_views (t ∷ ts)))
tiles_back t [] = (t, refl, ground arith)
tiles_back t (x ∷ ts) = let (y, e, h) = tiles_back x ts in (y, e, ground arith)

-- The workspace after `pop_from_column`: the bottom view of the column, if it has another, is in a
-- column of its own to the right of it.
abbrev pub popped : Option Tile → Option Tile → Workspace → Workspace
popped none front ws = ws
popped (some back) none ws = ws
popped (some back) (some front) ws =
    place_view back.view (some front.view) false (displace_view back.view ws)

pub pop_from_column-popped :
    (env : Env) (c : Column) (ws : Workspace) (s : Scene)
    → (pop_from_column env c ws s).0
      ≡ (if ltb (length c.tiles) 2 then ws else popped (last? c.tiles) (first? c.tiles) ws)
unfolding pop_from_column remove_view add_view
pop_from_column-popped env c ws s = ground arith

count-column_views :
    (w : ℕ) (before : List Column) (c : Column) (after : List Column)
    → count w (tile_views c.tiles) ≤ count w (column_views (before ++ c ∷ after))
count-column_views w [] c after =
    omega (arith, count-append w (tile_views c.tiles) (column_views after))
count-column_views w (b ∷ before) c after = omega (
  arith,
  count-column_views w before c after,
  count-append w (tile_views b.tiles) (column_views (before ++ c ∷ after)),
)

popped-IsWellFormed :
    (back front : Option Tile) (ws : Workspace)
    → IsWellFormed ws
    → IsWellFormed (popped back front ws)
popped-IsWellFormed none front ws h = h
popped-IsWellFormed (some back) none ws h = h
popped-IsWellFormed (some back) (some front) ws h =
    place_view-IsWellFormed back.view (some front.view) false (displace_view back.view ws)
      (ground (
        arith,
        ap (count back.view) (views_of-displace_view back.view ws (h.distinct back.view)),
        count-without back.view back.view (views_of ws),
      ))
      (displace_view-IsWellFormed back.view ws h)

-- Popping from any column keeps the workspace well-formed.
pub pop_from_column-IsWellFormed :
    (env : Env) (c : Column) (ws : Workspace) (s : Scene)
    → IsWellFormed ws
    → IsWellFormed (pop_from_column env c ws s).0
pop_from_column-IsWellFormed env c ws s h =
    rw (pop_from_column-popped env c ws s) (elim (Bool-cases (ltb (length c.tiles) 2)) [
      | inl few ↦ rw few h
      | inr many ↦ rw many (popped-IsWellFormed (last? c.tiles) (first? c.tiles) ws h)
    ])
