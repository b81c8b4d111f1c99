-- ===== src/Seat/Stack.antt =====
-- The focus stack through the operations of cardboard/Seat.cpp and SurfaceManager.cpp.
use cardboard.Base.{
  ℕ, ◌≤◌, ◌≡◌, Bool, true, false, Option, none, some, List, [], ◌∷◌, ◌==◌, arith, if◌then◌else◌,
  sym, subst, any, erase_at, find_position,
}
use cardboard.Base.Count.{count, any-count_zero, count-without}
use cardboard.Workspace.{Column, Workspace, Env}
use cardboard.Seat.{
  Server, Outside, get_view_workspace, push_focus, fit_on_screen, focus_layer, focus_view,
}
use cardboard.Seat.Keeps.{
  Holds, Holds-and_then, Holds-and_then_any, Holds-if, IsKept, focus_view-keeps, focus_layer-keeps,
  hide_view-keeps, focus_column-keeps, set_exclusive_client-keeps,
}
use cardboard.Seat.Views.{
  remove_from_focus_stack, hide_view, focus_column, map_view, unmap_view, set_exclusive_client,
  add_to, set_mapped, take_out,
}

-- No view is twice on the focus stack.
abbrev pub IsOnce : Server → Type 0
IsOnce w = (u : ℕ) → count u w.seat.focus_stack ≤ 1

count-splice :
    (u v : ℕ) (s : List ℕ)
    → any (λ x. x == v) s ≡ true
    → count u (v ∷ erase_at s (find_position (λ x. x == v) s)) ≡ count u s
count-splice u v [] h = ground arith
count-splice u v (x ∷ s) h = ground (arith, count-splice u v s)

push_focus-once :
    (v : ℕ) (s : List ℕ) → ((u : ℕ) → count u s ≤ 1) → (u : ℕ) → count u (push_focus v s) ≤ 1
push_focus-once v s h u = ground (arith, count-splice u v s, any-count_zero v s, h u)

module _ (env : Env) (out : Outside) where
  IsOnce-IsKept : IsKept env IsOnce
  unfolding fit_on_screen
  IsOnce-IsKept = record {
    scenes = λ w s e h. h;
    seats = λ w seat e h. λ u. subst (λ stack. count u stack ≤ 1) (sym e) (h u);
    pushes = λ v w h. push_focus-once v w.seat.focus_stack h;
    orders = λ w vs h. h;
    fits = λ v condense w h. Holds-and_then_any IsOnce (get_view_workspace w v) _ (λ ws. h);
  }

  pub focus_view-IsOnce :
      (v : Option ℕ) (condense : Bool) (w : Server)
      → IsOnce w
      → Holds IsOnce (focus_view env out v condense w)
  focus_view-IsOnce v condense w h = focus_view-keeps env out IsOnce IsOnce-IsKept v condense w h

  pub focus_layer-IsOnce :
      (layer : Option ℕ) (w : Server) → IsOnce w → Holds IsOnce (focus_layer env out layer w)
  focus_layer-IsOnce layer w h = focus_layer-keeps env out IsOnce IsOnce-IsKept layer w h

  pub hide_view-IsOnce : (v : ℕ) (w : Server) → IsOnce w → Holds IsOnce (hide_view env out v w)
  hide_view-IsOnce v w h = hide_view-keeps env out IsOnce IsOnce-IsKept v w h

  pub focus_column-IsOnce :
      (c : Column) (w : Server) → IsOnce w → Holds IsOnce (focus_column env out c w)
  focus_column-IsOnce c w h = focus_column-keeps env out IsOnce IsOnce-IsKept c w h

  pub set_exclusive_client-IsOnce :
      (client : Option ℕ) (w : Server)
      → IsOnce w
      → Holds IsOnce (set_exclusive_client env out client w)
  set_exclusive_client-IsOnce client w h =
      set_exclusive_client-keeps env out IsOnce IsOnce-IsKept client w h

  add_to-IsOnce :
      (v i : ℕ) (next_to : Option ℕ) (ws : Option Workspace) (w : Server)
      → IsOnce w
      → IsOnce (add_to env out v next_to i ws w)
  add_to-IsOnce v i next_to none w h = h
  add_to-IsOnce v i next_to (some ws) w h = h

  pub map_view-IsOnce : (v : ℕ) (w : Server) → IsOnce w → Holds IsOnce (map_view env out v w)
  unfolding map_view
  map_view-IsOnce v w h =
      focus_view-IsOnce (some v) false _ (add_to-IsOnce v _ _ _ (set_mapped env out v true w) h)

pub remove_from_focus_stack-IsOnce :
    (v : ℕ) (w : Server) → IsOnce w → IsOnce (remove_from_focus_stack v w)
unfolding remove_from_focus_stack
remove_from_focus_stack-IsOnce v w h u = ground (arith, count-without u v w.seat.focus_stack, h u)

module _ (env : Env) (out : Outside) where
  pub unmap_view-IsOnce : (v : ℕ) (w : Server) → IsOnce w → Holds IsOnce (unmap_view env out v w)
  unfolding unmap_view
  unmap_view-IsOnce v w h =
      Holds-and_then IsOnce
        (if (w.scene.view v).mapped
          then take_out env out v (set_mapped env out v false w)
          else some w)
        _
        (Holds-if IsOnce (w.scene.view v).mapped _ (some w)
          (Holds-and_then_any IsOnce (get_view_workspace (set_mapped env out v false w) v) _
            (λ ws. h))
          h)
        (λ w' h'.
          Holds-and_then IsOnce (hide_view env out v w') _ (hide_view-IsOnce env out v w' h')
            (λ w'' h''. remove_from_focus_stack-IsOnce v w'' h''))
