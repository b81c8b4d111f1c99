-- ===== src/Workspace/Edit/Columns.antt =====
-- What `add_view` and `remove_view` of cardboard/Workspace.cpp do to the row of columns.
use cardboard.Base.{
  ℕ, zero, suc, ◌≤◌, ◌≡◌, refl, ap, Bool, true, false, not, Option, none, some, List, [], ◌∷◌, ◌++◌,
  arith, ◌==◌, if◌then◌else◌, any, keep_if, keep_if-append, find_position, length, Bool-cases, inl,
  inr, insert_at, length-append,
}
use cardboard.Base.Count.{count, without, count-append, without_absent}
use cardboard.Workspace.{Tile, Column, Workspace, holds, find_column, find_floating}
use cardboard.Workspace.Edit.{
  fresh_address, new_column, after_position, insert_column, without_tile, shrink_at,
  remove_from_columns, displace_view, place_view, insert_floating,
}
use cardboard.Workspace.Edit.Output.{tile_views, column_views, views_of}

-- A column without a view, before the columns `cs`; it is gone if it has no other view.
abbrev pub drop_from : ℕ → Column → List Column → List Column
drop_from v c cs = elim (without_tile v c).tiles [ [] ↦ cs | t ∷ ts ↦ without_tile v c ∷ cs ]

shrink_at-suc :
    (v i : ℕ) (c : Column) (cs : List Column) (o : Option Column)
    → shrink_at v (suc i) (c ∷ cs) o ≡ c ∷ shrink_at v i cs o
shrink_at-suc v i c cs none = refl
shrink_at-suc v i c cs (some d) = ground arith

-- `remove_from_columns` column by column.
pub remove_from_columns_cons :
    (v : ℕ) (c : Column) (cs : List Column)
    → remove_from_columns v (c ∷ cs)
      ≡ (if holds v c then drop_from v c cs else c ∷ remove_from_columns v cs)
unfolding remove_from_columns
remove_from_columns_cons v c cs = elim (Bool-cases (holds v c)) [
  | inl hit ↦ rw hit
  | inr miss ↦ rw miss (shrink_at-suc v _ c cs _)
]

pub remove_from_columns_nil : (v : ℕ) → remove_from_columns v [] ≡ []
unfolding remove_from_columns
remove_from_columns_nil v = refl

column_views-drop_from :
    (v : ℕ) (c : Column) (cs : List Column)
    → column_views (drop_from v c cs) ≡ tile_views (without_tile v c).tiles ++ column_views cs
column_views-drop_from v c cs = ground arith

tile_views-keep_if :
    (v : ℕ) (ts : List Tile)
    → tile_views (keep_if (λ (t : Tile). not (t.view == v)) ts) ≡ without v (tile_views ts)
tile_views-keep_if v [] = refl
tile_views-keep_if v (t ∷ ts) = ground (arith, tile_views-keep_if v ts)

pub any-tiles_true :
    (v : ℕ) (ts : List Tile)
    → any (λ (t : Tile). t.view == v) ts ≡ true
    → 1 ≤ count v (tile_views ts)
any-tiles_true v [] h = cc
any-tiles_true v (t ∷ ts) h = ground (arith, any-tiles_true v ts)

pub any-tiles_false :
    (v : ℕ) (ts : List Tile)
    → any (λ (t : Tile). t.view == v) ts ≡ false
    → count v (tile_views ts) ≡ 0
any-tiles_false v [] h = refl
any-tiles_false v (t ∷ ts) h = ground (arith, any-tiles_false v ts)

-- The views of the columns without `v`, if it stands there once at most.
pub column_views-remove :
    (v : ℕ) (cs : List Column)
    → count v (column_views cs) ≤ 1
    → column_views (remove_from_columns v cs) ≡ without v (column_views cs)
column_views-remove v [] h = ap column_views (remove_from_columns_nil v)
column_views-remove v (c ∷ cs) h =
    rw (remove_from_columns_cons v c cs) (elim (Bool-cases (holds v c)) [
      | inl hit ↦ rw (
        hit,
        column_views-drop_from v c cs,
        tile_views-keep_if v c.tiles,
        keep_if-append (λ w. not (w == v)) (tile_views c.tiles) (column_views cs),
        without_absent v (column_views cs) (
            omega (
              arith,
              any-tiles_true v c.tiles hit,
              count-append v (tile_views c.tiles) (column_views cs),
            )),
      )
      | inr miss ↦
          rw
            (
              miss,
              keep_if-append (λ w. not (w == v)) (tile_views c.tiles) (column_views cs),
              without_absent v (tile_views c.tiles) (any-tiles_false v c.tiles miss),
            )
            (ap (◌++◌ (tile_views c.tiles)) (
              column_views-remove v cs
                (omega (arith, count-append v (tile_views c.tiles) (column_views cs)))))
    ])

-- `displace_view` on the views of the whole workspace.
pub views_of-displace_view :
    (v : ℕ) (ws : Workspace)
    → count v (views_of ws) ≤ 1
    → views_of (displace_view v ws) ≡ without v (views_of ws)
unfolding displace_view
views_of-displace_view v ws h = rw (
  column_views-remove v ws.columns
      (omega (arith, count-append v (column_views ws.columns) ws.floating_views)),
  keep_if-append (λ w. not (w == v)) (column_views ws.columns) ws.floating_views,
)

pub find_position-append :
    (n : ℕ) (before : List Column) (c : Column) (after : List Column)
    → any (holds n) before ≡ false
    → holds n c ≡ true
    → find_position (holds n) (before ++ c ∷ after) ≡ length before
find_position-append n [] c after alone hit = rw hit
find_position-append n (b ∷ before) c after alone hit = elim (Bool-cases (holds n b)) [
  | inl other ↦ absurd (ground arith)
  | inr miss ↦ rw miss (ap suc (find_position-append n before c after (ground arith) hit))
]

find_position_end :
    (n : ℕ) (cs : List Column) → any (holds n) cs ≡ false → find_position (holds n) cs ≡ length cs
find_position_end n [] h = refl
find_position_end n (c ∷ cs) h = elim (Bool-cases (holds n c)) [
  | inl hit ↦ absurd (ground arith)
  | inr miss ↦ rw miss (ap suc (find_position_end n cs (ground arith)))
]

insert_at_after :
    (before : List Column) (c : Column) (after : List Column) (new : Column)
    → insert_at (before ++ c ∷ after) (suc (length before)) new ≡ before ++ c ∷ new ∷ after
insert_at_after [] c after new = refl
insert_at_after (b ∷ before) c after new = ap (◌∷◌ b) (insert_at_after before c after new)

insert_at_end : (cs : List Column) (new : Column) → insert_at cs (length cs) new ≡ cs ++ new ∷ []
insert_at_end [] new = refl
insert_at_end (c ∷ cs) new = ap (◌∷◌ c) (insert_at_end cs new)

after_position_inside :
    (before : List Column) (c : Column) (after : List Column)
    → after_position (length (before ++ c ∷ after)) (length before) ≡ suc (length before)
after_position_inside before c after = ground (arith, length-append before (c ∷ after))

after_position_end : (n : ℕ) → after_position n n ≡ n
after_position_end n = ground arith

-- The new column stands directly to the right of the column that holds `n`.
pub insert_column_next :
    (v n : ℕ) (before : List Column) (c : Column) (after : List Column)
    → any (holds n) before ≡ false
    → holds n c ≡ true
    → insert_column v (some n) (before ++ c ∷ after)
      ≡ before ++ c ∷ new_column v (fresh_address (before ++ c ∷ after)) ∷ after
unfolding insert_column
insert_column_next v n before c after alone hit =
    rw (find_position-append n before c after alone hit, after_position_inside before c after)
      (insert_at_after before c after _)

abbrev pub IsElsewhere : Option ℕ → List Column → Type 0
IsElsewhere none cs = Unit {0}
IsElsewhere (some n) cs = any (holds n) cs ≡ false

-- With no reference view in the columns, the new column is the last.
pub insert_column_last :
    (v : ℕ) (next_to : Option ℕ) (cs : List Column)
    → IsElsewhere next_to cs
    → insert_column v next_to cs ≡ cs ++ new_column v (fresh_address cs) ∷ []
unfolding insert_column
insert_column_last v none cs h = rw (after_position_end (length cs)) (insert_at_end cs _)
insert_column_last v (some n) cs h =
    rw (find_position_end n cs h, after_position_end (length cs)) (insert_at_end cs _)

count-insert_at :
    (w v a : ℕ) (cs : List Column) (i : ℕ)
    → count w (column_views (insert_at cs i (new_column v a))) ≡ count w (v ∷ column_views cs)
count-insert_at w v a cs zero = refl
count-insert_at w v a [] (suc i) = refl
count-insert_at w v a (c ∷ cs) (suc i) = ground (
  arith,
  count-insert_at w v a cs i,
  count-append w (tile_views c.tiles) (column_views (insert_at cs i (new_column v a))),
  count-append w (tile_views c.tiles) (column_views cs),
)

count-insert_at_floating :
    (w v : ℕ) (xs : List ℕ) (i : ℕ) → count w (insert_at xs i v) ≡ count w (v ∷ xs)
count-insert_at_floating w v xs zero = refl
count-insert_at_floating w v [] (suc i) = refl
count-insert_at_floating w v (x ∷ xs) (suc i) = ground (arith, count-insert_at_floating w v xs i)

-- A view that is placed comes once more among the views, and all others as often as before.
pub count-place_view :
    (w v : ℕ) (next_to : Option ℕ) (floating : Bool) (ws : Workspace)
    → count w (views_of (place_view v next_to floating ws)) ≡ count w (v ∷ views_of ws)
unfolding place_view insert_column insert_floating
count-place_view w v next_to true ws = ground (
  arith,
  count-append w (column_views ws.columns) ws.floating_views,
  count-append w (column_views ws.columns) (
      insert_at ws.floating_views
        (after_position (length ws.floating_views) (find_floating next_to ws.floating_views)) v),
  count-insert_at_floating w v ws.floating_views
      (after_position (length ws.floating_views) (find_floating next_to ws.floating_views)),
)
count-place_view w v next_to false ws =
    let i = after_position (length ws.columns) (find_column next_to ws.columns) in
    let new = new_column v (fresh_address ws.columns) in
    ground (
      arith,
      count-append w (column_views ws.columns) ws.floating_views,
      count-append w (column_views (insert_at ws.columns i new)) ws.floating_views,
      count-insert_at w v (fresh_address ws.columns) ws.columns i,
    )
