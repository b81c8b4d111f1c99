-- ===== src/Commands/Windows/Floating.antt =====
-- `toggle_floating` of cardboard/commands/commands.h, as the workspace sees it.
use cardboard.Base.{
  ℕ, zero, suc, ◌≡◌, refl, ap, ◌∙◌, Bool, true, false, not, Option, none, some, List, [], ◌∷◌,
  arith, any, insert_at, ◌==◌,
}
use cardboard.Base.Count.{count, count-without, without}
use cardboard.View.{Scene, same_ref, can_resize, resize, try_resize}
use cardboard.Workspace.{Workspace, Env, is_view_floating}
use cardboard.Workspace.Edit.{add_view, remove_view, displace_view, place_view, insert_floating}
use cardboard.Workspace.Edit.Columns.{count-place_view}
use cardboard.Workspace.Edit.Laws.{remove_view-views, add_view-IsWellFormed}
use cardboard.Workspace.Edit.Output.{views_of}
use cardboard.Workspace.Edit.WellFormed.{IsWellFormed}
use cardboard.Workspace.Life.{SameViews, same-IsWellFormed, fits-same}
use cardboard.ViewOperations.Places.{views-same}
use cardboard.Commands.Windows.{
  replace_view, last_view, toggled, restore_size, show_after, fit_if, previous_on, remember_size,
}

any-insert_self : (v : ℕ) (xs : List ℕ) (i : ℕ) → any (λ w. w == v) (insert_at xs i v) ≡ true
any-insert_self v xs zero = ground arith
any-insert_self v [] (suc i) = ground arith
any-insert_self v (x ∷ xs) (suc i) = ground (arith, any-insert_self v xs i)

any-without : (v : ℕ) (xs : List ℕ) → any (λ w. w == v) (without v xs) ≡ false
any-without v [] = refl
any-without v (x ∷ xs) = ground (arith, any-without v xs)

-- The view is in the other kind of place; it and all others are in the workspace as often as they
-- were; and the workspace is well-formed.
abbrev pub IsToggled : ℕ → Workspace → Workspace → Type 0
IsToggled v ws ws' =
    (is_view_floating v ws' ≡ not (is_view_floating v ws))
    × ((u : ℕ) → count u (views_of ws') ≡ count u (views_of ws))
    × IsWellFormed ws'

replace_view-floating :
    (env : Env) (v : ℕ) (floating : Bool) (ws : Workspace) (s : Scene)
    → is_view_floating v (replace_view env v floating ws s).0 ≡ not floating
unfolding replace_view add_view remove_view insert_floating displace_view place_view
replace_view-floating env v true ws s = any-without v ws.floating_views
replace_view-floating env v false ws s = any-insert_self v (without v ws.floating_views) _

replace_view-count :
    (env : Env) (v u : ℕ) (floating : Bool) (ws : Workspace) (s : Scene)
    → IsWellFormed ws
    → count v (views_of ws) ≡ 1
    → count u (views_of (replace_view env v floating ws s).0) ≡ count u (views_of ws)
unfolding replace_view add_view
replace_view-count env v u floating ws s h there =
    let ws' = (remove_view env v true ws s).0 in
    count-place_view u v (last_view ws'.columns) (not floating) ws'
    ∙ ground (
      arith,
      ap (count u) ((remove_view-views env v true ws s h).0),
      count-without u v (views_of ws),
      there,
    )

replace_view-IsWellFormed :
    (env : Env) (v : ℕ) (floating : Bool) (ws : Workspace) (s : Scene)
    → IsWellFormed ws
    → IsWellFormed (replace_view env v floating ws s).0
unfolding replace_view
replace_view-IsWellFormed env v floating ws s h =
    let (views, formed) = remove_view-views env v true ws s h in
    let r = remove_view env v true ws s in
    add_view-IsWellFormed env v (last_view r.0.columns) (not floating) true r.0 r.1
      (ap (count v) views ∙ ground (arith, count-without v v (views_of ws))) formed

show_after-same :
    (env : Env) (v : ℕ) (floating : Bool) (stack : List ℕ) (r : Workspace × Scene)
    → SameViews r.0 (show_after env v floating stack r).0
show_after-same env v true stack r = fits-same env v false r.0 r.1
show_after-same env v false stack r = shown (previous_on v r.1.view stack)
  where
    shown : (o : Option ℕ) → SameViews r.0 (fit_if env o r).0
    shown none = (refl, refl)
    shown (some u) = fits-same env u true r.0 r.1

same-IsToggled :
    (v : ℕ) (ws ws' ws'' : Workspace)
    → SameViews ws' ws''
    → IsToggled v ws ws'
    → IsToggled v ws ws''
same-IsToggled v ws ws' ws'' same (floating, counts, formed) = (
  ap (any (λ w. w == v)) (same.1) ∙ floating,
  λ u. ap (count u) (views-same ws' ws'' same) ∙ counts u,
  same-IsWellFormed same formed,
)

-- A view of a well-formed workspace, that is not its fullscreen view and that is an XDG view or
-- mapped, is floating after toggle_floating if it was tiled, and tiled if it was floating. The
-- workspace has the same views, each as often, and is well-formed, whatever the focus stack is. The
-- operation succeeds, but for an assertion in the layout, which the log would have.
pub toggled-IsToggled :
    (env : Env) (v : ℕ) (stack : List ℕ) (ws : Workspace) (s : Scene)
    → IsWellFormed ws
    → count v (views_of ws) ≡ 1
    → same_ref ws.fullscreen_view (some v) ≡ false
    → can_resize (s.view v) (s.view v).shell ≡ true
    → (r : Workspace × Scene) × (toggled env v stack ws s ≡ some r) × IsToggled v ws r.0
unfolding toggled restore_size try_resize
toggled-IsToggled env v stack ws s h there windowed able =
    let floating = is_view_floating v ws in
    let s' = resized in
    let r = replace_view env v floating ws s' in
    (
      show_after env v floating stack r,
      rw (windowed, resizes) refl,
      same-IsToggled v ws r.0 (show_after env v floating stack r).0
          (show_after-same env v floating stack r)
          (
            replace_view-floating env v floating ws s',
            λ u. replace_view-count env v u floating ws s' h there,
            replace_view-IsWellFormed env v floating ws s' h,
          ),
    )
  where
    resized : Scene
    resized = resize v (s.view v).previous_size.0 (s.view v).previous_size.1 (remember_size v s)

    resizes :
        try_resize v (s.view v).previous_size.0 (s.view v).previous_size.1 (remember_size v s)
        ≡ some resized
    resizes = ground (arith, able)
