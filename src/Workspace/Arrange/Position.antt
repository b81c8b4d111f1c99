-- ===== src/Workspace/Arrange/Position.antt =====
-- Where `arrange_workspace` (cardboard/Workspace.cpp) puts the tiled views.
use cardboard.Base.{
  ℕ, Bool, true, false, not, ◌&&◌, ◌≡◌, refl, ◌∙◌, ap, some, List, [], ◌∷◌, ◌++◌, arith, any,
  keep_if, ◌==◌, Bool-cases, inl, inr, ==_iff,
}
use cardboard.Base.Int.{ℤ, pos, ◌+ℤ◌, ◌-ℤ◌, max_ℤ}
use cardboard.View.{View, Scene, is_mapped_and_normal, resize, enqueue_task}
use cardboard.Workspace.{Tile, Column, Workspace, Env, is_on_screen, holds}
use cardboard.Workspace.Tiles.{mapped_and_normal_tiles-keep_if}
use cardboard.Workspace.Arrange.{
  Placing, Slot, place_tile, place_tiles, arrange_column, arrange_columns, next_width,
  arrange_fullscreen, arrange_workspace,
}
use cardboard.Workspace.Arrange.Frame.{
  Keeps, place_tile-Keeps, arrange_column-Keeps, arrange_fullscreen-Keeps, arrange_workspace_shown,
}

-- The widest of the views, and at least `acc`.
abbrev pub widest : (ℕ → View) → ℤ → List Tile → ℤ
widest view acc [] = acc
widest view acc (t ∷ ts) = widest view (max_ℤ acc (view t.view).geometry.width) ts

abbrev pub on_screen : (ℕ → View) → Column → List Tile
on_screen view c = keep_if (is_on_screen view) c.tiles

abbrev pub column_width : (ℕ → View) → Column → ℤ
column_width view c = widest view (pos 0) (on_screen view c)

-- The width of a row of columns, each followed by a gap.
abbrev pub row_width : ℤ → (ℕ → View) → ℤ → List Column → ℤ
row_width gap view acc [] = acc
row_width gap view acc (c ∷ cs) = row_width gap view (acc +ℤ (column_width view c +ℤ gap)) cs

is_on_screen-Keeps :
    {s t : Scene} → Keeps s t → (tile : Tile) → is_on_screen t.view tile ≡ is_on_screen s.view tile
is_on_screen-Keeps k tile = ground (arith, k.same tile.view)

pub keep_if-Keeps :
    {s t : Scene}
    → Keeps s t
    → (ts : List Tile) → keep_if (is_on_screen t.view) ts ≡ keep_if (is_on_screen s.view) ts
keep_if-Keeps k [] = refl
keep_if-Keeps k (tile ∷ ts) = ground (arith, is_on_screen-Keeps k tile, keep_if-Keeps k ts)

widest-Keeps :
    {s t : Scene}
    → Keeps s t
    → (acc : ℤ) (ts : List Tile) → widest t.view acc ts ≡ widest s.view acc ts
widest-Keeps k acc [] = refl
widest-Keeps {s} k acc (tile ∷ ts) =
    rw ((k.same tile.view).geometry)
      (widest-Keeps k (max_ℤ acc (s.view tile.view).geometry.width) ts)

pub column_width-Keeps :
    {s t : Scene} → Keeps s t → (c : Column) → column_width t.view c ≡ column_width s.view c
column_width-Keeps {s} {t} k c =
    rw (keep_if-Keeps k c.tiles) (widest-Keeps k (pos 0) (on_screen s.view c))

pub row_width-Keeps :
    {s t : Scene}
    → Keeps s t
    → (gap acc : ℤ) (cs : List Column) → row_width gap t.view acc cs ≡ row_width gap s.view acc cs
row_width-Keeps k gap acc [] = refl
row_width-Keeps {s} k gap acc (c ∷ cs) =
    rw (column_width-Keeps k c) (row_width-Keeps k gap (acc +ℤ (column_width s.view c +ℤ gap)) cs)

max_width-place_tile :
    (env : Env) (slot : Slot) (t : Tile) (p : Placing)
    → (place_tile env slot t p).max_width ≡ max_ℤ p.max_width (p.scene.view t.view).geometry.width
unfolding place_tile
max_width-place_tile env slot t p = refl

max_width-place_tiles :
    (env : Env) (slot : Slot) (ts : List Tile) (p : Placing)
    → (place_tiles env slot ts p).max_width ≡ widest p.scene.view p.max_width ts
unfolding place_tiles
max_width-place_tiles env slot [] p = refl
max_width-place_tiles env slot (t ∷ ts) p =
    max_width-place_tiles env slot ts (place_tile env slot t p)
    ∙ widest-Keeps (place_tile-Keeps env slot t p) _ ts
    ∙ ap (λ m. widest p.scene.view m ts) (max_width-place_tile env slot t p)

max_width-arrange_column :
    (env : Env) (scroll_x : ℤ) (o : ℕ) (animated : Bool) (acc : ℤ) (c : Column) (s : Scene)
    → (arrange_column env scroll_x o animated acc c s).max_width ≡ column_width s.view c
unfolding arrange_column
max_width-arrange_column env scroll_x o animated acc c s =
    max_width-place_tiles env _ _ _
    ∙ ap (widest s.view (pos 0)) (mapped_and_normal_tiles-keep_if s.view c.tiles)

-- The view stands in a column that starts at `column_x` on the unscrolled plane: its geometry
-- begins there, less the scroll, and without animation the view is already at its target.
pub record IsPlaced (column_x scroll_x : ℤ) (animated : Bool) (w : View) : Type 0 where
  pub target : w.target_x ≡ column_x -ℤ w.geometry.x -ℤ scroll_x
  pub arrived : animated ≡ false → w.x ≡ w.target_x

abbrev PlacedIn : Env → Slot → View → Type 0
PlacedIn env slot w =
    IsPlaced ((env.output_box slot.output).x +ℤ slot.acc_width) slot.scroll_x slot.animated w

place_tile-IsPlaced :
    (env : Env) (slot : Slot) (t : Tile) (p : Placing)
    → PlacedIn env slot ((place_tile env slot t p).scene.view t.view)
unfolding place_tile resize enqueue_task
place_tile-IsPlaced env slot t p = ground arith

pub view-place_tile_ne :
    (env : Env) (slot : Slot) (t : Tile) (p : Placing) (v : ℕ)
    → (t.view == v) ≡ false
    → (place_tile env slot t p).scene.view v ≡ p.scene.view v
unfolding place_tile resize enqueue_task
view-place_tile_ne env slot t p v h = ground arith

pub view-place_tiles_ne :
    (env : Env) (slot : Slot) (ts : List Tile) (p : Placing) (v : ℕ)
    → any (λ (t : Tile). t.view == v) ts ≡ false
    → (place_tiles env slot ts p).scene.view v ≡ p.scene.view v
unfolding place_tiles
view-place_tiles_ne env slot [] p v h = refl
view-place_tiles_ne env slot (t ∷ ts) p v h = elim (Bool-cases (t.view == v)) [
  | inl hit ↦ absurd (ground arith)
  | inr miss ↦
      view-place_tiles_ne env slot ts (place_tile env slot t p) v (ground arith)
      ∙ view-place_tile_ne env slot t p v miss
]

stays-IsPlaced :
    (env : Env) (slot : Slot) (ts : List Tile) (p : Placing) (v : ℕ)
    → PlacedIn env slot (p.scene.view v)
    → PlacedIn env slot ((place_tiles env slot ts p).scene.view v)
unfolding place_tiles
stays-IsPlaced env slot [] p v h = h
stays-IsPlaced env slot (t ∷ ts) p v h =
    stays-IsPlaced env slot ts (place_tile env slot t p) v (elim (Bool-cases (t.view == v)) [
      | inl hit ↦ rw (← (==_iff t.view v).0 hit) (place_tile-IsPlaced env slot t p)
      | inr miss ↦ rw (view-place_tile_ne env slot t p v miss) h
    ])

place_tiles-IsPlaced :
    (env : Env) (slot : Slot) (ts : List Tile) (p : Placing) (v : ℕ)
    → any (λ (t : Tile). t.view == v) ts ≡ true
    → PlacedIn env slot ((place_tiles env slot ts p).scene.view v)
unfolding place_tiles
place_tiles-IsPlaced env slot [] p v h = cc
place_tiles-IsPlaced env slot (t ∷ ts) p v h = elim (Bool-cases (t.view == v)) [
  | inl hit ↦
      stays-IsPlaced env slot ts (place_tile env slot t p) v
        (rw (← (==_iff t.view v).0 hit) (place_tile-IsPlaced env slot t p))
  | inr miss ↦ place_tiles-IsPlaced env slot ts (place_tile env slot t p) v (ground arith)
]

pub any-keep_if-false :
    (view : ℕ → View) (v : ℕ) (ts : List Tile)
    → any (λ (t : Tile). t.view == v) ts ≡ false
    → any (λ (t : Tile). t.view == v) (keep_if (is_on_screen view) ts) ≡ false
any-keep_if-false view v [] h = refl
any-keep_if-false view v (t ∷ ts) h = ground (arith, any-keep_if-false view v ts)

pub any-keep_if-true :
    (view : ℕ → View) (v : ℕ) (ts : List Tile)
    → is_mapped_and_normal (view v) ≡ true
    → any (λ (t : Tile). t.view == v) ts ≡ true
    → any (λ (t : Tile). t.view == v) (keep_if (is_on_screen view) ts) ≡ true
any-keep_if-true view v [] on h = h
any-keep_if-true view v (t ∷ ts) on h = elim (Bool-cases (t.view == v)) [
  | inl hit ↦ rw ((==_iff t.view v).0 hit, on) (rw ((==_iff v v).1 refl))
  | inr miss ↦ ground (arith, any-keep_if-true view v ts on)
]

module _ (env : Env) (scroll_x : ℤ) (o : ℕ) (animated : Bool) (v : ℕ) where
  view-arrange_column_ne :
      (acc : ℤ) (c : Column) (s : Scene)
      → holds v c ≡ false
      → (arrange_column env scroll_x o animated acc c s).scene.view v ≡ s.view v
  unfolding arrange_column
  view-arrange_column_ne acc c s h =
      view-place_tiles_ne env _ _ _ v
        (rw (mapped_and_normal_tiles-keep_if s.view c.tiles) (any-keep_if-false s.view v c.tiles h))

  pub view-arrange_columns_ne :
      (acc : ℤ) (cs : List Column) (s : Scene)
      → any (holds v) cs ≡ false
      → (arrange_columns env scroll_x o animated acc cs s).view v ≡ s.view v
  unfolding arrange_columns
  view-arrange_columns_ne acc [] s h = refl
  view-arrange_columns_ne acc (c ∷ cs) s h =
      view-arrange_columns_ne (next_width env acc (arrange_column env scroll_x o animated acc c s))
        cs (arrange_column env scroll_x o animated acc c s).scene (ground arith)
      ∙ view-arrange_column_ne acc c s (ground arith)

  arrange_column-IsPlaced :
      (acc : ℤ) (c : Column) (s : Scene)
      → is_mapped_and_normal (s.view v) ≡ true
      → holds v c ≡ true
      → IsPlaced
          ((env.output_box o).x +ℤ acc)
          scroll_x
          animated
          ((arrange_column env scroll_x o animated acc c s).scene.view v)
  unfolding arrange_column
  arrange_column-IsPlaced acc c s on h =
      place_tiles-IsPlaced env _ _ _ v (
        rw (mapped_and_normal_tiles-keep_if s.view c.tiles)
          (any-keep_if-true s.view v c.tiles on h))

  arrange_columns-IsPlaced :
      (acc : ℤ) (before : List Column) (c : Column) (after : List Column) (s : Scene)
      → is_mapped_and_normal (s.view v) ≡ true
      → holds v c ≡ true
      → any (holds v) after ≡ false
      → IsPlaced
          ((env.output_box o).x +ℤ row_width env.gap s.view acc before)
          scroll_x
          animated
          ((arrange_columns env scroll_x o animated acc (before ++ c ∷ after) s).view v)
  unfolding arrange_columns
  arrange_columns-IsPlaced acc [] c after s on h alone =
      rw
        (view-arrange_columns_ne
          (next_width env acc (arrange_column env scroll_x o animated acc c s)) after
          (arrange_column env scroll_x o animated acc c s).scene alone)
        (arrange_column-IsPlaced acc c s on h)
  arrange_columns-IsPlaced acc (b ∷ before) c after s on h alone =
      let p = arrange_column env scroll_x o animated acc b s in
      let k = arrange_column-Keeps env scroll_x o animated acc b s in
      let width : next_width env acc p ≡ acc +ℤ (column_width s.view b +ℤ env.gap) =
        ap (λ m. acc +ℤ (m +ℤ env.gap))
          (max_width-arrange_column env scroll_x o animated acc b s) in
      rw (← width, ← row_width-Keeps k env.gap (next_width env acc p) before)
        (arrange_columns-IsPlaced (next_width env acc p) before c after p.scene
          (ground (arith, k.same v)) h alone)

-- In a workspace shown on output `o`, a mapped and normal view of column `c`, in no later column,
-- is placed at the sum of the widths of the columns before `c`, each with its gap: relative to the
-- output, less the scroll and the offset of its geometry; without animation it is there at once.
pub arrange_workspace-IsPlaced :
    (env : Env) (ws : Workspace) (animate : Bool) (s : Scene) (o v : ℕ) (before : List Column)
    (c : Column) (after : List Column)
    → ws.output ≡ some o
    → ws.columns ≡ before ++ c ∷ after
    → is_mapped_and_normal (s.view v) ≡ true
    → holds v c ≡ true
    → any (holds v) after ≡ false
    → IsPlaced
        ((env.output_box o).x +ℤ row_width env.gap s.view (pos 0) before)
        ws.scroll_x
        (animate && not ws.suspend_animations)
        ((arrange_workspace env ws animate s).view v)
arrange_workspace-IsPlaced env ws animate s o v before c after shown split on h alone =
    let s0 = arrange_fullscreen (env.output_box o) ws.fullscreen_view s in
    let k = arrange_fullscreen-Keeps (env.output_box o) ws.fullscreen_view s in
    let animated = animate && not ws.suspend_animations in
    rw
      (
        arrange_workspace_shown env ws animate s o shown,
        split,
        ← row_width-Keeps k env.gap (pos 0) before,
      )
      (arrange_columns-IsPlaced env ws.scroll_x o animated v (pos 0) before c after s0
        (ground (arith, k.same v)) h alone)
