-- ===== src/Layers/Life.antt =====
-- The life of the layer surfaces: any sequence of the handlers of cardboard/Layers.cpp.
use cardboard.Base.{
  arith, ℕ, ◌≡◌, refl, subst, Bool, true, false, Option, none, some, if◌then◌else◌,
}
use cardboard.Base.Int.{ℤ}
use cardboard.Seat.{Outside, and_then, focus_layer}
use cardboard.Layers.{Panels, Shell, LayerState, modify_layer}
use cardboard.Layers.Arrange.{arrange_layers, seen}
use cardboard.Layers.Handlers.{
  register_layer, forget_layer, create_layer, commit_handler, destroy_handler,
  output_destroy_handler, arrange_if, with_panels, set_dirty, change_level, refocus,
  arrange_required, focus_candidate,
}
use cardboard.Layers.Filed.{
  IsFiled, IsUnfiled, SameFiles, same-IsFiled, register_layer-IsFiled, forget_layer-IsFiled,
  HasFiled, change_level-IsFiled, forget_output-IsFiled,
}
use cardboard.Layers.Keeps.{From, modified-SameFiles, arrange_layers-From}
use cardboard.Layers.Yields.{Yields, Yields-and_then, with_server-Yields}

abbrev Files : Shell → Type 0
Files sh = IsFiled sh.panels

arrange_if-Files :
    (out : Outside) (resolution : ℕ → ℤ × ℤ) (o : Option ℕ) (sh : Shell)
    → Files sh
    → Yields Files (arrange_if out resolution o sh)
arrange_if-Files out resolution none sh h = h
arrange_if-Files out resolution (some o) sh h =
    subst (λ (x : Option Shell). Yields Files x) (bound_self _)
      (Yields-and_then (From sh.panels) Files (arrange_layers out (resolution o) o sh) some
        (arrange_layers-From out (resolution o) o sh)
        (λ sh' same. same-IsFiled sh.panels sh'.panels same h))
  where
    bound_self : (x : Option Shell) → and_then x some ≡ x
    bound_self none = refl
    bound_self (some sh') = refl

module _ (out : Outside) (resolution : ℕ → ℤ × ℤ) where
  create_layer-Files :
      (l : ℕ) (sh : Shell)
      → Files sh
      → IsUnfiled l sh.panels
      → Yields Files (create_layer out resolution l sh)
  unfolding create_layer
  create_layer-Files l sh h fresh = on (sh.panels.surface l).output
    where
      old : LayerState
      old = (sh.panels.surface l).current

      sh1 : Shell
      sh1 = with_panels (register_layer l sh.panels) sh

      restored : Shell → Shell
      restored sh' =
          with_panels (modify_layer l (λ surface. record surface { current = old }) sh'.panels) sh'

      on :
          (o : Option ℕ)
          → Yields Files
              (and_then (arrange_required out resolution o sh1) (λ sh'. some (restored sh')))
      on none = tt
      on (some o) =
          Yields-and_then Files Files (arrange_if out resolution (some o) sh1)
            (λ sh'. some (restored sh'))
            (arrange_if-Files out resolution (some o) sh1
              (register_layer-IsFiled l sh.panels h fresh))
            (λ sh' h'.
              same-IsFiled sh'.panels (restored sh').panels
                (modified-SameFiles l (λ surface. record surface { current = old }) sh'.panels refl)
                h')

  commit_handler-Files :
      (l : ℕ) (sh : Shell) → Files sh → Yields Files (commit_handler out resolution l sh)
  unfolding commit_handler
  commit_handler-Files l sh h =
      Yields-and_then Files Files (arrange_if out resolution (sh.panels.surface l).output sh) _
        (arrange_if-Files out resolution (sh.panels.surface l).output sh h)
        (λ sh' h'. leveled sh' (change_level l sh'.panels) (change_level-IsFiled l sh'.panels h'))
    where
      leveled :
          (sh' : Shell) (o : Option Panels)
          → HasFiled o
          → Yields Files (and_then o (λ p. some (set_dirty (with_panels p sh'))))
      leveled sh' none h' = tt
      leveled sh' (some p) h' = h'

  destroy_handler-Files :
      (l : ℕ) (sh : Shell) → Files sh → Yields Files (destroy_handler out resolution l sh)
  unfolding destroy_handler
  destroy_handler-Files l sh h =
      arrange_if-Files out resolution (sh.panels.surface l).output
        (with_panels (forget_layer l sh.panels) sh) (forget_layer-IsFiled l sh.panels h)

  refocus-Files : (l : ℕ) (sh : Shell) → Files sh → Yields Files (refocus out resolution l sh)
  refocus-Files l sh h = asked _ _
    where
      found : (o : Option ℕ) → Yields Files (focus_candidate out resolution o sh)
      found none = h
      found (some k) =
          with_server-Yields Files (λ sh2 w h2. h2) sh
            (focus_layer sh.env (seen sh.panels out) (some k) sh.server) h

      asked :
          (b : Bool) (o : Option ℕ)
          → Yields Files (if b then focus_candidate out resolution o sh else some sh)
      asked true o = found o
      asked false o = h

  output_destroy_handler-Files :
      (l : ℕ) (sh : Shell) → Files sh → Yields Files (output_destroy_handler out resolution l sh)
  unfolding output_destroy_handler
  output_destroy_handler-Files l sh h =
      let p = modify_layer l (λ surface. record surface { mapped = false }) sh.panels in
      Yields-and_then Files Files (refocus out resolution l (with_panels p sh)) _
        (refocus-Files l (with_panels p sh) (
          same-IsFiled sh.panels p
            (modified-SameFiles l (λ surface. record surface { mapped = false }) sh.panels refl) h))
        (λ sh' h'. forget_output-IsFiled l sh'.panels h')

  -- One event that is defined and succeeds; a commit that moves a surface between the lists is not
  -- defined. `others` is whatever moves no surface between the lists: mapping, unmapping, and
  -- what clients do to the state of their surfaces.
  pub data Step : Shell → Shell → Type 0 where
    creates :
        {sh sh' : Shell} (l : ℕ)
        → IsUnfiled l sh.panels
        → create_layer out resolution l sh ≡ some sh'
        → Step sh sh'
    commits : {sh sh' : Shell} (l : ℕ) → commit_handler out resolution l sh ≡ some sh' → Step sh sh'
    destroys :
        {sh sh' : Shell} (l : ℕ) → destroy_handler out resolution l sh ≡ some sh' → Step sh sh'
    loses_output :
        {sh sh' : Shell} (l : ℕ)
        → output_destroy_handler out resolution l sh ≡ some sh'
        → Step sh sh'
    others : {sh sh' : Shell} → SameFiles sh.panels sh'.panels → Step sh sh'

  pub data Reach : Shell → Type 0 where
    started : {sh : Shell} → ((l : ℕ) → IsUnfiled l sh.panels) → Reach sh
    next : {sh sh' : Shell} → Reach sh → Step sh sh' → Reach sh'

  one_event : {sh sh' : Shell} → Step sh sh' → Files sh → Files sh'
  one_event {sh} (creates l fresh e) h = subst (Yields Files) e (create_layer-Files l sh h fresh)
  one_event {sh} (commits l e) h = subst (Yields Files) e (commit_handler-Files l sh h)
  one_event {sh} (destroys l e) h = subst (Yields Files) e (destroy_handler-Files l sh h)
  one_event {sh} (loses_output l e) h = subst (Yields Files) e (output_destroy_handler-Files l sh h)
  one_event {sh} {sh'} (others same) h = same-IsFiled sh.panels sh'.panels same h

  -- After any sequence of creating, committing, destroying and losing the output of layer surfaces,
  -- each event defined and successful, with changes between them that move no surface, from a shell
  -- whose lists are empty: each surface is at most once in the list of its own layer, and in the
  -- list of no other.
  pub Reach-IsFiled : {sh : Shell} → Reach sh → IsFiled sh.panels
  Reach-IsFiled (started empty) = λ l level. rw (empty l level) (omega arith)
  Reach-IsFiled (next r step) = one_event step (Reach-IsFiled r)
