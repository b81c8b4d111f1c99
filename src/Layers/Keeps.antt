-- ===== src/Layers/Keeps.antt =====
-- Laying out the layers moves no surface between the lists.
use cardboard.Base.{
  arith, ℕ, ◌≡◌, refl, ◌∙◌, ap, ◌==◌, Bool-cases, inl, inr, Bool, true, false, Option, some, List,
  [], ◌∷◌, if◌then◌else◌,
}
use cardboard.Base.Int.{ℤ}
use cardboard.Base.Store.{update}
use cardboard.View.{Box}
use cardboard.Seat.{Server, Outside, and_then}
use cardboard.Cursor.{Layers}
use cardboard.Layers.{Panels, Shell, modify_layer, full_area, tell, Told, LayerSurface}
use cardboard.Layers.Arrange.{
  arrange_layers, arrange_layer, arrange_each, arrange_surface_if, arrange_surface, change_area,
  arrange_rest, topmost,
}
use cardboard.Layers.Filed.{SameFiles, level_written}
use cardboard.Layers.Yields.{Yields, Yields-and_then, with_server-Yields, focus_topmost-Yields}

trans-SameFiles : (p q r : Panels) → SameFiles p q → SameFiles q r → SameFiles p r
trans-SameFiles p q r (layers, levels) (layers', levels') =
    (layers' ∙ layers, λ l. levels' l ∙ levels l)

pub modified-SameFiles :
    (l : ℕ) (f : LayerSurface → LayerSurface) (p : Panels)
    → (f (p.surface l)).layer ≡ (p.surface l).layer
    → SameFiles p (modify_layer l f p)
modified-SameFiles l f p e = (refl, λ k. level_written l k f p ∙ back k)
  where
    back :
        (k : ℕ)
        → (if k == l then (f (p.surface l)).layer else (p.surface k).layer) ≡ (p.surface k).layer
    back k = elim (Bool-cases (k == l)) [
      | inl same ↦
          let e' : l ≡ k = ground (arith, same) in rw same (e ∙ ap (λ j. (p.surface j).layer) e')
      | inr other ↦ rw other refl
    ]

arrange_surface-SameFiles :
    (size : ℤ × ℤ) (l : ℕ) (area : Box) (p : Panels)
    → SameFiles p (arrange_surface size l (area, p)).1
arrange_surface-SameFiles size l area p = kept _ _ _ _ _
  where
    kept :
        (b : Bool) (t t' : Told) (box area' : Box)
        → SameFiles p
            (if◌then◌else◌ {A = Box × Panels} b
              (area, tell t p)
              (area', tell t' (modify_layer l (λ surface. record surface { geometry = box }) p))).1
    kept true t t' box area' = (refl, λ k. refl)
    kept false t t' box area' =
        modified-SameFiles l (λ surface. record surface { geometry = box }) p refl

arrange_surface_if-SameFiles :
    (size : ℤ × ℤ) (o : ℕ) (exclusive : Bool) (l : ℕ) (r : Box × Panels)
    → SameFiles r.1 (arrange_surface_if size o exclusive l r).1
arrange_surface_if-SameFiles size o exclusive l (area, p) = kept _
  where
    kept : (b : Bool) → SameFiles p (if b then arrange_surface size l (area, p) else (area, p)).1
    kept true = arrange_surface-SameFiles size l area p
    kept false = (refl, λ k. refl)

arrange_layer-SameFiles :
    (size : ℤ × ℤ) (o : ℕ) (exclusive : Bool) (ls : List ℕ) (r : Box × Panels)
    → SameFiles r.1 (arrange_layer size o exclusive ls r).1
unfolding arrange_layer
arrange_layer-SameFiles size o exclusive [] r = (refl, λ k. refl)
arrange_layer-SameFiles size o exclusive (l ∷ ls) r =
    let r' = arrange_surface_if size o exclusive l r in
    trans-SameFiles r.1 r'.1 (arrange_layer size o exclusive ls r').1
      (arrange_surface_if-SameFiles size o exclusive l r)
      (arrange_layer-SameFiles size o exclusive ls r')

arrange_each-SameFiles :
    (size : ℤ × ℤ) (o : ℕ) (exclusive : Bool) (layers : Layers) (r : Box × Panels)
    → SameFiles r.1 (arrange_each size o exclusive layers r).1
arrange_each-SameFiles size o exclusive layers r =
    let r1 = arrange_layer size o exclusive layers.overlay r in
    let r2 = arrange_layer size o exclusive layers.top r1 in
    let r3 = arrange_layer size o exclusive layers.bottom r2 in
    let r4 = arrange_layer size o exclusive layers.background r3 in
    trans-SameFiles r.1 r1.1 r4.1 (arrange_layer-SameFiles size o exclusive layers.overlay r) (
      trans-SameFiles r1.1 r2.1 r4.1 (arrange_layer-SameFiles size o exclusive layers.top r1) (
        trans-SameFiles r2.1 r3.1 r4.1 (arrange_layer-SameFiles size o exclusive layers.bottom r2)
          (arrange_layer-SameFiles size o exclusive layers.background r3)))

abbrev pub From : Panels → Shell → Type 0
From p sh = SameFiles p sh.panels

change_area-From :
    (p : Panels) (o : ℕ) (area : Box) (sh : Shell)
    → From p sh
    → Yields (From p) (change_area o area sh)
change_area-From p o area sh h = kept _ _
  where
    changed : Shell
    changed = record sh { env = record (sh.env) { usable_area = update sh.env.usable_area o area } }

    kept :
        (b : Bool) (r : Option Server)
        → Yields
            (From p)
            (if b then some sh else and_then r (λ w. some (record changed { server = w })))
    kept true r = h
    kept false r = with_server-Yields (From p) (λ sh2 w h2. h2) changed r h

pub arrange_layers-From :
    (out : Outside) (size : ℤ × ℤ) (o : ℕ) (sh : Shell)
    → Yields (From sh.panels) (arrange_layers out size o sh)
unfolding arrange_layers
arrange_layers-From out size o sh =
    let r = arrange_each size o true sh.panels.layers (full_area size, sh.panels) in
    let sh1 = record sh { panels = r.1 } in
    Yields-and_then (From r.1) (From sh.panels) (change_area o r.0 sh1) (arrange_rest out size o r)
      (change_area-From r.1 o r.0 sh1 (refl, λ k. refl))
      (λ sh2 h.
        rest r sh2
          (arrange_each-SameFiles size o true sh.panels.layers (full_area size, sh.panels)))
  where
    rest :
        (r : Box × Panels) (sh2 : Shell)
        → SameFiles sh.panels r.1
        → Yields (From sh.panels) (arrange_rest out size o r sh2)
    rest r sh2 h =
        let p = (arrange_each size o false r.1.layers r).1 in
        focus_topmost-Yields (From sh.panels) (λ sh3 w h3. h3) out (topmost o p)
          (record sh2 { panels = p })
          (trans-SameFiles sh.panels r.1 p h (arrange_each-SameFiles size o false r.1.layers r))
