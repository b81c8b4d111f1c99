-- ===== src/ViewOperations/Simulates.antt =====
-- What each operation of cardboard/SurfaceManager.cpp, ViewOperations.cpp and Seat.cpp does to the
-- abstract state that gives each view its workspace.
use cardboard.Base.{
  ℕ, ◌≡◌, refl, ap, ◌∙◌, sym, Bool, true, false, Option, none, some, arith, ◌==◌, if◌then◌else◌,
  get_elem?, Bool-cases, inl, inr, subst,
}
use cardboard.Base.Store.{update}
use cardboard.Workspace.{Workspace, Env, is_view_floating}
use cardboard.Workspace.Edit.{add_view, remove_view}
use cardboard.Seat.{
  Server, Outside, and_then, get_focused_view, get_view_workspace, index_of, focus_view,
}
use cardboard.Seat.Keeps.{Holds, focus_view-keeps, hide_view-keeps}
use cardboard.Seat.Views.{
  map_view, unmap_view, hide_view, remove_from_focus_stack, add_to, set_mapped, take_out,
  get_focused_workspace,
}
use cardboard.Cursor.{Pointing, Layers}
use cardboard.ViewOperations.{
  on_workspace, change_view_workspace, transfer, change_between, bring_fullscreen, fit_floating,
}
use cardboard.ViewOperations.Places.{
  Owner, Implements, Implements-same, SamePlaces, SamePlaces-refl,
}
use cardboard.ViewOperations.Refines.{remove-Implements, add-Implements, Implements-ext}
use cardboard.ViewOperations.Frame.{
  SamePlaces-IsKept, cursor_rebase-SamePlaces, fit_floating-SamePlaces, get_view_workspace_at,
}
use cardboard.ViewOperations.Fullscreen.{bring_fullscreen-SamePlaces}

pub Holds-and_then_eq :
    {A : Type 0} (P : Server → Type 0) (o : Option A) (f : A → Option Server)
    → ((a : A) → o ≡ some a → Holds P (f a))
    → Holds P (and_then o f)
Holds-and_then_eq P none f k = tt
Holds-and_then_eq P (some a) f k = k a refl

Holds-map :
    (P Q : Server → Type 0) (o : Option Server) → ((w : Server) → P w → Q w) → Holds P o → Holds Q o
Holds-map P Q none k h = tt
Holds-map P Q (some w) k h = k w h

-- The workspace that a view of the abstract state is on is the one that the code finds.
owner-at :
    (owner : Owner) (w : Server) (v i : ℕ)
    → Implements owner w
    → owner v ≡ some i
    → index_of (w.scene.view v).workspace_id ≡ i
owner-at owner w v i h e = ap index_of (h.known v i e)

module _ (env : Env) (owner : Owner) (v : ℕ) where
  leaves :
      (w : Server) (i : ℕ)
      → Implements owner w
      → owner v ≡ some i
      → Holds
          (Implements (update owner v none))
          (on_workspace i (λ ws s. some (remove_view env v false ws s)) w)
  leaves w i h e =
      Holds-and_then_eq (Implements (update owner v none)) (get_elem? w.workspaces i) _
        (λ ws there. remove-Implements env owner w v i ws h e there)

  joins :
      (w : Server) (next_to : Option ℕ) (floating : Bool) (i : ℕ)
      → Implements owner w
      → owner v ≡ none
      → Holds
          (Implements (update owner v (some i)))
          (on_workspace i (λ ws s. some (add_view env v next_to floating false ws s)) w)
  joins w next_to floating i h e =
      Holds-and_then_eq (Implements (update owner v (some i))) (get_elem? w.workspaces i) _
        (λ ws there. add-Implements env owner w v i next_to floating ws h e there)

-- A chain of two operations, with what is true in between.
Holds-chain :
    (P Q : Server → Type 0) (o : Option Server) (f : Server → Option Server)
    → Holds P o
    → ((w : Server) → P w → Holds Q (f w))
    → Holds Q (and_then o f)
Holds-chain P Q none f h k = tt
Holds-chain P Q (some w) f h k = k w h

pub of_Holds : (P : Server → Type 0) (o : Option Server) (w : Server) → o ≡ some w → Holds P o → P w
of_Holds P o w e h = subst (Holds P) e h

same-keeps :
    (owner : Owner) (w : Server) (o : Option Server)
    → Implements owner w
    → Holds (SamePlaces w) o
    → Holds (Implements owner) o
same-keeps owner w o h same =
    Holds-map (SamePlaces w) (Implements owner) o (λ w' k. Implements-same owner w w' k h) same

transfer-Implements :
    (env : Env) (owner : Owner) (v : ℕ) (floating : Bool) (i j : ℕ) (w : Server)
    → Implements owner w
    → owner v ≡ some i
    → Holds (Implements (update owner v (some j))) (transfer env v floating i j w)
unfolding transfer
transfer-Implements env owner v floating i j w h e =
    let left = update owner v none in
    Holds-chain (Implements left) (Implements (update owner v (some j))) _ _
      (leaves env owner v w i h e)
      (λ w' h'.
        Holds-map (Implements (update left v (some j))) (Implements (update owner v (some j))) _
          (λ u k. Implements-ext _ (update owner v (some j)) u (λ x. ground arith) k)
          (joins env left v w' none floating j h' (ground arith)))

module _ (env : Env) (out : Outside) where
  mapped-SamePlaces : (v : ℕ) (b : Bool) (w : Server) → SamePlaces w (set_mapped env out v b w)
  mapped-SamePlaces v b w = record { ids = λ u. ground arith; kept = (SamePlaces-refl w).kept }

  pub focus-Implements :
      (owner : Owner) (v : Option ℕ) (condense : Bool) (w : Server)
      → Implements owner w
      → Holds (Implements owner) (focus_view env out v condense w)
  focus-Implements owner v condense w h = same-keeps owner w _ h (
      focus_view-keeps env out (SamePlaces w) (SamePlaces-IsKept env w) v condense w
        (SamePlaces-refl w))

  module _ (p : Pointing) (layers : Layers) (owner : Owner) (v : ℕ) where
    between-Implements :
        (i j : ℕ) (ws new : Workspace) (w : Server)
        → Implements owner w
        → owner v ≡ some i
        → Holds
            (Implements (update owner v (some j)))
            (change_between env out p layers v i j ws new w)
    between-Implements i j ws new w h e =
        let owner' = update owner v (some j) in
        let floating = is_view_floating v ws in
        Holds-chain (Implements owner) (Implements owner') (bring_fullscreen env v j w) _
          (same-keeps owner w _ h (bring_fullscreen-SamePlaces env v j w))
          (λ w1 h1.
            let w1' = fit_floating env v floating new w1 in
            Holds-chain (Implements owner') (Implements owner') (transfer env v floating i j w1') _
              (transfer-Implements env owner v floating i j w1'
                (Implements-same owner w1 w1' (fit_floating-SamePlaces env v floating new w1) h1) e)
              (λ w2 h2.
                Holds-chain (Implements owner') (Implements owner') (focus_view env out _ false w2)
                  _ (focus-Implements owner' _ false w2 h2)
                  (λ w3 h3.
                    Implements-same owner' w3 _ (cursor_rebase-SamePlaces p out layers w3) h3)))

    pub change-Implements :
        (i j : ℕ) (w : Server)
        → Implements owner w
        → owner v ≡ some i
        → Holds
            (Implements (update owner v (some j)))
            (change_view_workspace env out p layers v j w)
    unfolding change_view_workspace
    change-Implements i j w h e =
        let owner' = update owner v (some j) in
        let k = index_of (w.scene.view v).workspace_id in
        let at : owner v ≡ some k = e ∙ ap some (sym (owner-at owner w v i h e)) in
        Holds-and_then_eq (Implements owner') (get_view_workspace w v) _ (λ ws there.
          Holds-and_then_eq (Implements owner') (get_elem? w.workspaces j) _ (λ new _.
            elim (Bool-cases (k == j)) [
              | inl same ↦ rw same (Implements-ext owner owner' w (λ x. ground (arith, at)) h)
              | inr other ↦ rw other (between-Implements k j ws new w h at)
            ]))

  -- A view that is mapped comes to the workspace under the cursor.
  pub map-Implements :
      (owner : Owner) (v i : ℕ) (ws : Workspace) (w : Server)
      → Implements owner w
      → owner v ≡ none
      → get_focused_workspace out w ≡ i
      → get_elem? w.workspaces i ≡ some ws
      → Holds (Implements (update owner v (some i))) (map_view env out v w)
  unfolding map_view get_focused_workspace
  map-Implements owner v i ws w h free at there =
      let w' = set_mapped env out v true w in
      let h' = Implements-same owner w w' (mapped-SamePlaces v true w) h in
      focus-Implements (update owner v (some i)) (some v) false
        (add_to env out v (get_focused_view w'.seat) (get_focused_workspace out w')
          (get_elem? w'.workspaces (get_focused_workspace out w')) w')
        (subst
          (λ k.
            Implements (update owner v (some i))
              (add_to env out v (get_focused_view w'.seat) k (get_elem? w.workspaces k) w'))
          (sym at)
          (subst
            (λ o.
              Implements (update owner v (some i))
                (add_to env out v (get_focused_view w'.seat) i o w'))
            (sym there)
            (add-Implements env owner w' v i (get_focused_view w'.seat) false ws h' free there)))

  take-Implements :
      (owner : Owner) (v i : ℕ) (w : Server)
      → Implements owner w
      → owner v ≡ some i
      → Holds (Implements (update owner v none)) (take_out env out v w)
  take-Implements owner v i w h e =
      let k = index_of (w.scene.view v).workspace_id in
      Holds-and_then_eq (Implements (update owner v none)) (get_view_workspace w v) _ (λ ws there.
        remove-Implements env owner w v k ws h (e ∙ ap some (sym (owner-at owner w v i h e)))
          (get_view_workspace_at w v ws there))

  forgets-SamePlaces : (v : ℕ) (w : Server) → SamePlaces w (remove_from_focus_stack v w)
  unfolding remove_from_focus_stack
  forgets-SamePlaces v w = record { ids = λ u. refl; kept = (SamePlaces-refl w).kept }

  pub unmap-Implements :
      (owner : Owner) (v i : ℕ) (w : Server)
      → Implements owner w
      → owner v ≡ some i
      → (w.scene.view v).mapped ≡ true
      → Holds (Implements (update owner v none)) (unmap_view env out v w)
  unfolding unmap_view
  unmap-Implements owner v i w h e mapped =
      let owner' = update owner v none in
      let w' = set_mapped env out v false w in
      Holds-chain (Implements owner') (Implements owner')
        (if (w.scene.view v).mapped then take_out env out v w' else some w) _
        (subst (λ b. Holds (Implements owner') (if b then take_out env out v w' else some w))
          (sym mapped)
          (take-Implements owner v i w' (Implements-same owner w w' (mapped-SamePlaces v false w) h)
            e))
        (λ w1 h1.
          Holds-chain (Implements owner') (Implements owner') (hide_view env out v w1) _
            (same-keeps owner' w1 _ h1 (
              hide_view-keeps env out (SamePlaces w1) (SamePlaces-IsKept env w1) v w1
                (SamePlaces-refl w1)))
            (λ w2 h2. Implements-same owner' w2 _ (forgets-SamePlaces v w2) h2))
