-- ===== src/Layers/Filed.antt =====
-- In which of the lists of `surface_manager.layers` the handlers of cardboard/Layers.cpp leave the
-- surfaces.
use cardboard.Base.{
  ℕ, ◌+◌, ◌≤◌, ◌≡◌, refl, ap, subst, ◌∙◌, ◌==◌, Bool, true, false, ◌&&◌, Option, none, some, List,
  [], ◌∷◌, ◌++◌, arith, if◌then◌else◌, Bool-cases, inl, inr, any,
}
use cardboard.Base.Count.{count, count-append, count-without, without, any-count_zero}
use cardboard.Cursor.{Layers}
use cardboard.Layers.{Level, background, bottom, top, overlay, LayerSurface, Panels, modify_layer}
use cardboard.Layers.Handlers.{
  layer_of, with_layer, same_level, push_back, remove_from, register_layer, change_level,
  forget_layer, forget_output,
}

-- A surface is in the list of its level once at most, and in no other.
abbrev pub IsFiled : Panels → Type 0
IsFiled p =
    (l : ℕ) (level : Level)
    → count l (layer_of level p.layers) ≤ (if same_level level (p.surface l).layer then 1 else 0)

-- The lists are the same, and the level of each surface.
abbrev pub SameFiles : Panels → Panels → Type 0
SameFiles p p' = (p'.layers ≡ p.layers) × ((l : ℕ) → (p'.surface l).layer ≡ (p.surface l).layer)

pub same-IsFiled : (p p' : Panels) → SameFiles p p' → IsFiled p → IsFiled p'
same-IsFiled p p' (layers, levels) h l level = rw (layers, levels l) (h l level)

layer_of-with_layer :
    (level new : Level) (ls : List ℕ) (layers : Layers)
    → layer_of level (with_layer new ls layers)
      ≡ (if same_level level new then ls else layer_of level layers)
layer_of-with_layer background background ls layers = refl
layer_of-with_layer background bottom ls layers = refl
layer_of-with_layer background top ls layers = refl
layer_of-with_layer background overlay ls layers = refl
layer_of-with_layer bottom background ls layers = refl
layer_of-with_layer bottom bottom ls layers = refl
layer_of-with_layer bottom top ls layers = refl
layer_of-with_layer bottom overlay ls layers = refl
layer_of-with_layer top background ls layers = refl
layer_of-with_layer top bottom ls layers = refl
layer_of-with_layer top top ls layers = refl
layer_of-with_layer top overlay ls layers = refl
layer_of-with_layer overlay background ls layers = refl
layer_of-with_layer overlay bottom ls layers = refl
layer_of-with_layer overlay top ls layers = refl
layer_of-with_layer overlay overlay ls layers = refl

same_level-layer_of :
    (a b : Level) (layers : Layers) → same_level a b ≡ true → layer_of a layers ≡ layer_of b layers
same_level-layer_of background background layers e = refl
same_level-layer_of bottom bottom layers e = refl
same_level-layer_of top top layers e = refl
same_level-layer_of overlay overlay layers e = refl
same_level-layer_of background bottom layers e = absurd (ground (arith, e))
same_level-layer_of background top layers e = absurd (ground (arith, e))
same_level-layer_of background overlay layers e = absurd (ground (arith, e))
same_level-layer_of bottom background layers e = absurd (ground (arith, e))
same_level-layer_of bottom top layers e = absurd (ground (arith, e))
same_level-layer_of bottom overlay layers e = absurd (ground (arith, e))
same_level-layer_of top background layers e = absurd (ground (arith, e))
same_level-layer_of top bottom layers e = absurd (ground (arith, e))
same_level-layer_of top overlay layers e = absurd (ground (arith, e))
same_level-layer_of overlay background layers e = absurd (ground (arith, e))
same_level-layer_of overlay bottom layers e = absurd (ground (arith, e))
same_level-layer_of overlay top layers e = absurd (ground (arith, e))

abbrev one_if : Bool → ℕ
one_if b = if b then 1 else 0

count-push_back :
    (level new : Level) (k l : ℕ) (layers : Layers)
    → count k (layer_of level (push_back new l layers))
      ≡ count k (layer_of level layers) + one_if (same_level level new && l == k)
count-push_back level new k l layers = elim (Bool-cases (same_level level new)) [
  | inl e ↦
      rw (layer_of-with_layer level new (layer_of new layers ++ l ∷ []) layers, e)
        (ground (
          arith,
          count-append k (layer_of new layers) (l ∷ []),
          ap (count k) (same_level-layer_of level new layers e),
        ))
  | inr e ↦
      rw (layer_of-with_layer level new (layer_of new layers ++ l ∷ []) layers, e) (ground arith)
]

count-remove_from :
    (level old : Level) (k l : ℕ) (layers : Layers)
    → count k (layer_of level (remove_from old l layers))
      ≡ (if same_level level old && k == l then 0 else count k (layer_of level layers))
count-remove_from level old k l layers = elim (Bool-cases (same_level level old)) [
  | inl e ↦
      rw (layer_of-with_layer level old (without l (layer_of old layers)) layers, e)
        (ground (
          arith,
          count-without k l (layer_of old layers),
          ap (count k) (same_level-layer_of level old layers e),
        ))
  | inr e ↦
      rw (layer_of-with_layer level old (without l (layer_of old layers)) layers, e) (ground arith)
]

pub level_written :
    (l k : ℕ) (f : LayerSurface → LayerSurface) (p : Panels)
    → ((modify_layer l f p).surface k).layer
      ≡ (if k == l then (f (p.surface l)).layer else (p.surface k).layer)
level_written l k f p = elim (Bool-cases (k == l)) [ inl e ↦ rw e refl | inr e ↦ rw e refl ]

-- The surface is in no list.
abbrev pub IsUnfiled : ℕ → Panels → Type 0
IsUnfiled l p = (level : Level) → count l (layer_of level p.layers) ≡ 0

pub register_layer-IsFiled :
    (l : ℕ) (p : Panels) → IsFiled p → IsUnfiled l p → IsFiled (register_layer l p)
unfolding register_layer
register_layer-IsFiled l p h fresh k level =
    let new = (p.surface l).client_pending.level in
    rw
      (
        level_written l k
            (λ surface. record surface { layer = new; current = surface.client_pending })
            (record p { layers = push_back new l p.layers }),
        count-push_back level new k l p.layers,
      )
      (ground (arith, h k level, fresh level))

forget_layer-IsUnfiled : (l : ℕ) (p : Panels) → IsFiled p → IsUnfiled l (forget_layer l p)
unfolding forget_layer
forget_layer-IsUnfiled l p h level =
    count-remove_from level (p.surface l).layer l l p.layers ∙ ground (arith, h l level)

pub forget_layer-IsFiled : (l : ℕ) (p : Panels) → IsFiled p → IsFiled (forget_layer l p)
unfolding forget_layer
forget_layer-IsFiled l p h k level =
    rw (count-remove_from level (p.surface l).layer k l p.layers) (ground (arith, h k level))

absent-IsUnfiled :
    (l : ℕ) (p : Panels)
    → IsFiled p
    → any (λ j. j == l) (layer_of (p.surface l).layer p.layers) ≡ false
    → IsUnfiled l p
absent-IsUnfiled l p h absent level = elim (Bool-cases (same_level level (p.surface l).layer)) [
  | inl e ↦
      ap (count l) (same_level-layer_of level (p.surface l).layer p.layers e)
      ∙ any-count_zero l (layer_of (p.surface l).layer p.layers) absent
  | inr e ↦ empty (h l level) e
]
  where
    empty : {n : ℕ} {b : Bool} → n ≤ (if b then 1 else 0) → b ≡ false → n ≡ 0
    empty h e = ground (arith, h, e)

relevel : ℕ → Level → Panels → Panels
relevel l new p = modify_layer l (λ surface. record surface { layer = new }) p

relevel-IsFiled :
    (l : ℕ) (new : Level) (p : Panels) → IsFiled p → IsUnfiled l p → IsFiled (relevel l new p)
unfolding relevel
relevel-IsFiled l new p h fresh k level =
    rw (level_written l k (λ surface. record surface { layer = new }) p)
      (elim (Bool-cases (k == l)) [
        | inl e ↦
            let e' : l ≡ k = ground (arith, e) in
            rw e (
              subst
                (λ j. count j (layer_of level p.layers) ≤ (if same_level level new then 1 else 0))
                e' (rw (fresh level) (ground arith)))
        | inr e ↦ rw e (h k level)
      ])

-- Of the panels that a change of level leaves, where it is defined.
abbrev pub HasFiled : Option Panels → Type 0
HasFiled none = Unit {0}
HasFiled (some p) = IsFiled p

pub change_level-IsFiled : (l : ℕ) (p : Panels) → IsFiled p → HasFiled (change_level l p)
unfolding change_level relevel
change_level-IsFiled l p h = elim (Bool-cases (same_level old new)) [
  | inl e ↦ rw e h
  | inr e ↦ rw e (found (any (λ j. j == l) (layer_of old p.layers)) refl)
]
  where
    old : Level
    old = (p.surface l).layer

    new : Level
    new = (p.surface l).current.level

    found :
        (b : Bool)
        → any (λ j. j == l) (layer_of old p.layers) ≡ b
        → HasFiled (if b then none else some (relevel l new p))
    found true e = tt
    found false e = relevel-IsFiled l new p h (absent-IsUnfiled l p h e)

pub forget_output-IsFiled : (l : ℕ) (p : Panels) → IsFiled p → IsFiled (forget_output l p)
unfolding forget_output
forget_output-IsFiled l p h k level =
    rw (level_written l k (λ surface. record surface { output = none }) p)
      (ground (arith, h k level))
