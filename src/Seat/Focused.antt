-- ===== src/Seat/Focused.antt =====
-- Which view has the focus after `Seat::focus_view` (cardboard/Seat.cpp).
use cardboard.Base.{
  Bool-cases, inl, inr, ℕ, ◌≡◌, refl, ap, sym, ◌∙◌, subst, Bool, true, false, Option, none, some,
  List, [], ◌∷◌, ◌≤◌, erase_at, find_position, ◌==◌, arith, any, first?,
}
use cardboard.Base.Count.{count, without, without_absent, any-count_zero}
use cardboard.View.{View, same_ref, set_activated, close_popups}
use cardboard.View.Frame.{set_activated_view, close_popups_view}
use cardboard.Workspace.{Workspace, Env}
use cardboard.Seat.Stack.{IsOnce}
use cardboard.Seat.{
  Seat, Server, Outside, with_seat, get_focused_view, get_view_workspace, workspace_at, push_focus,
  splice_front, move_view_to_front, fit_on_screen, deactivate_previous, give_focus, focus_view_only,
  focus_under, focus_view, hidden_by_fullscreen, is_input_allowed, keyboard_notify_enter, first_if,
  allows,
}

-- The operation succeeds, and this is true of the server after it.
abbrev pub Gives : (Server → Type 0) → Option Server → Type 0
Gives P none = ⊥
Gives P (some w) = P w

-- The view has the focus, and this is the focus stack.
abbrev pub IsFocused : ℕ → List ℕ → Server → Type 0
IsFocused v stack w = (get_focused_view w.seat ≡ some v) × (w.seat.focus_stack ≡ stack)

push_focus_first : (v : ℕ) (s : List ℕ) → first? (push_focus v s) ≡ some v
push_focus_first v s = ground arith

erase_at-without :
    (v : ℕ) (s : List ℕ)
    → count v s ≤ 1
    → any (λ u. u == v) s ≡ true
    → erase_at s (find_position (λ u. u == v) s) ≡ without v s
erase_at-without v [] once h = ground arith
erase_at-without v (x ∷ s) once h = ground (arith, erase_at-without v s, without_absent v s)

push_focus-without : (v : ℕ) (s : List ℕ) → count v s ≤ 1 → push_focus v s ≡ v ∷ without v s
push_focus-without v s once =
    ground (arith, erase_at-without v s once, without_absent v s, any-count_zero v s)

same_ref-eq : (a b : Option ℕ) → same_ref a b ≡ true → a ≡ b
same_ref-eq a b h = ground arith

module _ (env : Env) (out : Outside) where
  fit_on_screen_lem :
      (v : ℕ) (condense : Bool) (w : Server) (ws : Workspace) (P : Server → Type 0)
      → get_view_workspace w v ≡ some ws
      → ((w' : Server) → w'.seat ≡ w.seat → P w')
      → Gives P (fit_on_screen env v condense w)
  unfolding fit_on_screen
  fit_on_screen_lem v condense w ws P e k = rw e (k _ refl)

  focused_first :
      (v : ℕ) (seat : Seat)
      → get_focused_view seat ≡ some v
      → push_focus v seat.focus_stack ≡ seat.focus_stack
  focused_first v seat e = ground arith

  -- `keyboard_notify_enter` of wlroots gives the focus to the surface.
  abbrev pub Enters : Type 0
  Enters = (surface : ℕ) (old : Option ℕ) → out.notify_enter surface old ≡ some surface

  give_focus_lem :
      (v : ℕ) (condense : Bool) (w : Server) (ws : Workspace)
      → Enters
      → is_input_allowed out w.seat (out.get_surface v) ≡ true
      → any (λ u. u == v) w.views ≡ true
      → get_view_workspace w v ≡ some ws
      → Gives (IsFocused v (push_focus v w.seat.focus_stack)) (give_focus env out v condense w)
  unfolding give_focus move_view_to_front
  give_focus_lem v condense w ws enters allowed known there =
      rw (allowed, known)
        (fit_on_screen_lem v condense entered ws (IsFocused v (push_focus v w.seat.focus_stack))
          still_there
          (λ w' same. (
            ap get_focused_view same
                ∙ ap (λ f. first_if f (push_focus v w.seat.focus_stack))
                    (enters (out.get_surface v) w.seat.focused_surface)
                ∙ push_focus_first v w.seat.focus_stack,
            ap (λ (s : Seat). s.focus_stack) same,
          )))
    where
      moved : Server
      moved =
          record (with_seat (λ seat. record seat { focus_stack = push_focus v seat.focus_stack })
            w) { views = splice_front v w.views }

      entered : Server
      entered =
          with_seat (keyboard_notify_enter out (out.get_surface v))
            (record moved { scene = set_activated v true w.scene })

      still_there : get_view_workspace entered v ≡ some ws
      still_there =
          ap (λ (view : ℕ → View). workspace_at (view v).workspace_id w.workspaces)
            (set_activated_view v true w.scene)
          ∙ there

  deactivate_previous_view :
      (p : Option ℕ) (w : Server) → (deactivate_previous out p w).scene.view ≡ w.scene.view
  unfolding deactivate_previous
  deactivate_previous_view none w = refl
  deactivate_previous_view (some p) w =
      set_activated_view p false (close_popups p w.scene) ∙ close_popups_view p w.scene

  -- What the operation leaves alone.
  abbrev SameFocus : Server → Server → Type 0
  SameFocus w w' =
      (w'.seat.focus_stack ≡ w.seat.focus_stack)
      × (w'.seat.exclusive_client ≡ w.seat.exclusive_client)
      × (w'.workspaces ≡ w.workspaces)
      × (w'.views ≡ w.views)

  deactivate_previous-SameFocus :
      (p : Option ℕ) (w : Server) → SameFocus w (deactivate_previous out p w)
  unfolding deactivate_previous
  deactivate_previous-SameFocus none w = (refl, refl, refl, refl)
  deactivate_previous-SameFocus (some p) w = (refl, refl, refl, refl)

  focus_view_only-IsFocused :
      (v : ℕ) (condense : Bool) (w : Server) (ws : Workspace)
      → Enters
      → is_input_allowed out w.seat (out.get_surface v) ≡ true
      → any (λ u. u == v) w.views ≡ true
      → get_view_workspace w v ≡ some ws
      → hidden_by_fullscreen out v ws ≡ false
      → Gives
          (IsFocused v (push_focus v w.seat.focus_stack))
          (focus_view_only env out (some v) condense w)
  unfolding focus_view_only
  focus_view_only-IsFocused v condense w ws enters allowed known there seen =
      elim (Bool-cases (same_ref (get_focused_view w.seat) (some v))) [
        | inl same ↦ rw same (stays_focused (same_ref-eq (get_focused_view w.seat) (some v) same))
        | inr differs ↦
            rw (differs, there, seen)
              (subst
                (λ stack.
                  Gives (IsFocused v (push_focus v stack)) (give_focus env out v condense before))
                kept.0
                (give_focus_lem v condense before ws enters before_allowed before_known
                  before_there))
      ]
    where
      before : Server
      before = deactivate_previous out (get_focused_view w.seat) w

      kept : SameFocus w before
      kept = deactivate_previous-SameFocus (get_focused_view w.seat) w

      before_allowed : is_input_allowed out before.seat (out.get_surface v) ≡ true
      before_allowed = ap (λ e. allows e (out.client_of (out.get_surface v))) kept.1 ∙ allowed

      before_known : any (λ u. u == v) before.views ≡ true
      before_known = ap (λ vs. any (λ u. u == v) vs) kept.3 ∙ known

      before_there : get_view_workspace before v ≡ some ws
      before_there =
          ap (λ (view : ℕ → View). workspace_at (view v).workspace_id before.workspaces)
            (deactivate_previous_view (get_focused_view w.seat) w)
          ∙ ap (workspace_at (w.scene.view v).workspace_id) kept.2
          ∙ there

      stays_focused :
          get_focused_view w.seat ≡ some v
          → Gives (IsFocused v (push_focus v w.seat.focus_stack)) (fit_on_screen env v condense w)
      stays_focused focus =
          fit_on_screen_lem v condense w ws (IsFocused v (push_focus v w.seat.focus_stack)) there
            (λ w' same. (
              ap get_focused_view same ∙ focus,
              ap (λ (seat : Seat). seat.focus_stack) same ∙ sym (focused_first v w.seat focus),
            ))

  -- If wlroots gives the keyboard focus to the surface that it is told to enter, and without a layer
  -- in the focus: a view that the surface manager has, whose workspace exists and
  -- has no fullscreen view that hides it, and whose client may get input, has the focus after
  -- focus_view; and the focus stack, where no view is twice, is then this view before the others in
  -- their order. The operation succeeds.
  pub focus_view-IsFocused :
      (v : ℕ) (condense : Bool) (w : Server) (ws : Workspace)
      → Enters
      → w.seat.focused_layer ≡ none
      → is_input_allowed out w.seat (out.get_surface v) ≡ true
      → any (λ u. u == v) w.views ≡ true
      → get_view_workspace w v ≡ some ws
      → hidden_by_fullscreen out v ws ≡ false
      → IsOnce w
      → Gives
          (IsFocused v (v ∷ without v w.seat.focus_stack))
          (focus_view env out (some v) condense w)
  unfolding focus_view
  focus_view-IsFocused v condense w ws enters no_layer allowed known there seen once =
      subst
        (λ l.
          Gives (IsFocused v (v ∷ without v w.seat.focus_stack))
            (focus_under env out l (some v) condense w))
        (sym no_layer)
        (subst (λ stack. Gives (IsFocused v stack) (focus_view_only env out (some v) condense w))
          (push_focus-without v w.seat.focus_stack (once v))
          (focus_view_only-IsFocused v condense w ws enters allowed known there seen))
