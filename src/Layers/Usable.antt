-- ===== src/Layers/Usable.antt =====
-- What `arrange_layers` of cardboard/Layers.cpp leaves of an output for the views.
use cardboard.Base.{
  ℕ, ◌≡◌, sym, subst, Bool, true, false, Option, some, List, [], ◌∷◌, arith, if◌then◌else◌,
  Bool-cases, inl, inr,
}
use cardboard.Base.Int.{ℤ, pos, ◌≤ℤ◌, ◌+ℤ◌, ◌-ℤ◌, ltb_ℤ, int_laws}
use cardboard.Base.Store.{update, update_self}
use cardboard.View.{Box}
use cardboard.Seat.{Server, Outside, and_then}
use cardboard.Cursor.{Layers}
use cardboard.Layers.Yields.{Yields, Yields-and_then, with_server-Yields, focus_topmost-Yields}
use cardboard.Layers.{full_area, Panels, Shell, LayerState, reserve, apply_exclusive_zone}
use cardboard.Layers.Arrange.{
  arrange_layer, arrange_layers, arrange_surface_if, same_box, change_area, arrange_surface,
  arrange_each, topmost, arrange_rest,
}

-- Within the extent of the output on one axis.
abbrev IsWithin : ℤ → ℤ × ℤ → Type 0
IsWithin extent (start, size) = (pos 0 ≤ℤ start) × ((start +ℤ size) ≤ℤ extent)

-- The area begins at the left and top edges of the output or behind them, and does not end behind
-- the right and bottom edges. Its size may be negative.
abbrev pub IsInside : ℤ × ℤ → Box → Type 0
IsInside (width, height) area =
    IsWithin width (area.x, area.width) × IsWithin height (area.y, area.height)

reserve-IsWithin :
    (anchored moves : Bool) (amount extent : ℤ) (axis : ℤ × ℤ)
    → IsWithin extent axis
    → IsWithin extent (reserve anchored moves amount axis)
unfolding reserve
reserve-IsWithin false moves amount extent axis h = h
reserve-IsWithin true moves amount extent (start, size) (h, k) =
    elim (Bool-cases (ltb_ℤ (pos 0) amount)) [
      | inl e ↦ rw e (taken moves (ground (arith, e)))
      | inr e ↦ rw e (h, k)
    ]
  where
    taken :
        (m : Bool)
        → pos 0 ≤ℤ amount
        → IsWithin extent (if m then start +ℤ amount else start, size -ℤ amount)
    taken true p = (grind (int_laws, p, h), grind (int_laws, p, k))
    taken false p = (h, grind (int_laws, p, k))

apply_exclusive_zone-IsInside :
    (size : ℤ × ℤ) (state : LayerState) (area : Box)
    → IsInside size area
    → IsInside size (apply_exclusive_zone state area)
unfolding apply_exclusive_zone
apply_exclusive_zone-IsInside (width, height) state area (h, k) =
    elim (Bool-cases (ltb_ℤ (pos 0) state.exclusive_zone)) [
      | inl e ↦ rw e (
        reserve-IsWithin _ false _ width _ (reserve-IsWithin _ true _ width _ h),
        reserve-IsWithin _ false _ height _ (reserve-IsWithin _ true _ height _ k),
      )
      | inr e ↦ rw e (h, k)
    ]

arrange_surface-IsInside :
    (size : ℤ × ℤ) (l : ℕ) (area : Box) (p : Panels)
    → IsInside size area
    → IsInside size (arrange_surface size l (area, p)).0
arrange_surface-IsInside size l area p h = kept _ _ _
  where
    kept :
        (b : Bool) (q q' : Panels)
        → IsInside size
            (if◌then◌else◌ {A = Box × Panels} b
              (area, q)
              (apply_exclusive_zone (p.surface l).current area, q')).0
    kept true q q' = h
    kept false q q' = apply_exclusive_zone-IsInside size (p.surface l).current area h

arrange_surface_if-IsInside :
    (size : ℤ × ℤ) (o : ℕ) (exclusive : Bool) (l : ℕ) (r : Box × Panels)
    → IsInside size r.0
    → IsInside size (arrange_surface_if size o exclusive l r).0
arrange_surface_if-IsInside size o exclusive l (area, p) h = kept _
  where
    kept : (b : Bool) → IsInside size (if b then arrange_surface size l (area, p) else (area, p)).0
    kept true = arrange_surface-IsInside size l area p h
    kept false = h

arrange_layer-IsInside :
    (size : ℤ × ℤ) (o : ℕ) (exclusive : Bool) (ls : List ℕ) (r : Box × Panels)
    → IsInside size r.0
    → IsInside size (arrange_layer size o exclusive ls r).0
unfolding arrange_layer
arrange_layer-IsInside size o exclusive [] r h = h
arrange_layer-IsInside size o exclusive (l ∷ ls) r h =
    arrange_layer-IsInside size o exclusive ls (arrange_surface_if size o exclusive l r)
      (arrange_surface_if-IsInside size o exclusive l r h)

abbrev Has : ℤ × ℤ → ℕ → Shell → Type 0
Has size o sh = IsInside size (sh.env.usable_area o)

same_box-IsInside :
    (size : ℤ × ℤ) (a b : Box) → same_box a b ≡ true → IsInside size a → IsInside size b
same_box-IsInside size a b e ((hx, hw), (hy, hh)) = (
  (grind (int_laws, e, hx), grind (int_laws, e, hw)),
  (grind (int_laws, e, hy), grind (int_laws, e, hh)),
)

change_area-IsInside :
    (size : ℤ × ℤ) (o : ℕ) (area : Box) (sh : Shell)
    → IsInside size area
    → Yields (λ sh'. IsInside size (sh'.env.usable_area o)) (change_area o area sh)
change_area-IsInside size o area sh h = elim (Bool-cases (same_box area (sh.env.usable_area o))) [
  | inl e ↦ rw e (same_box-IsInside size area (sh.env.usable_area o) e h)
  | inr e ↦ rw e (laid_out _)
]
  where
    changed : Shell
    changed = record sh { env = record (sh.env) { usable_area = update sh.env.usable_area o area } }

    written : IsInside size (changed.env.usable_area o)
    written = subst (IsInside size) (sym (update_self sh.env.usable_area o area)) h

    laid_out :
        (r : Option Server)
        → Yields
            (λ sh'. IsInside size (sh'.env.usable_area o))
            (and_then r (λ w. some (record changed { server = w })))
    laid_out r = with_server-Yields (Has size o) (λ sh2 w h2. h2) changed r written

full_area-IsInside : (size : ℤ × ℤ) → IsInside size (full_area size)
full_area-IsInside size = ((omega arith, grind int_laws), (omega arith, grind int_laws))

arrange_each-IsInside :
    (size : ℤ × ℤ) (o : ℕ) (layers : Layers) (p : Panels)
    → IsInside size (arrange_each size o true layers (full_area size, p)).0
arrange_each-IsInside size o layers p = arrange_layer-IsInside size o true layers.background _ (
    arrange_layer-IsInside size o true layers.bottom _ (
      arrange_layer-IsInside size o true layers.top _
        (arrange_layer-IsInside size o true layers.overlay _ (full_area-IsInside size))))

-- Once arrange_layers has succeeded, the usable area of the output begins at coordinates that are not
-- negative, and its beginning plus its size is at most the output's width, and height, whatever the
-- surfaces reserve and whatever their margins are. Its size may be negative, where they reserve more
-- than there is.
pub arrange_layers-IsInside :
    (out : Outside) (size : ℤ × ℤ) (o : ℕ) (sh sh' : Shell)
    → arrange_layers out size o sh ≡ some sh'
    → IsInside size (sh'.env.usable_area o)
unfolding arrange_layers
arrange_layers-IsInside out size o sh sh' e =
    let r = arrange_each size o true sh.panels.layers (full_area size, sh.panels) in
    let sh1 = record sh { panels = r.1 } in
    subst (Yields (Has size o)) e (
      Yields-and_then (Has size o) (Has size o) (change_area o r.0 sh1) (arrange_rest out size o r)
        (change_area-IsInside size o r.0 sh1
          (arrange_each-IsInside size o sh.panels.layers sh.panels))
        (λ sh2 h. rest r sh2 h))
  where
    rest :
        (r : Box × Panels) (sh2 : Shell)
        → Has size o sh2
        → Yields (Has size o) (arrange_rest out size o r sh2)
    rest r sh2 h =
        let p = (arrange_each size o false r.1.layers r).1 in
        focus_topmost-Yields (Has size o) (λ sh3 w h3. h3) out (topmost o p)
          (record sh2 { panels = p }) h
