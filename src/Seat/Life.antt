-- ===== src/Seat/Life.antt =====
-- The server through any sequence of the focus operations of cardboard/Seat.cpp,
-- SurfaceManager.cpp and `focus_cycle` of commands/commands.h.
use cardboard.Base.{
  ℕ, ◌≤◌, ◌≡◌, subst, sym, Bool, false, Option, none, some, List, [], ◌∷◌, arith, if◌then◌else◌,
}
use cardboard.Base.Count.{count, count-append, count-without}
use cardboard.Workspace.{Column, Env}
use cardboard.Seat.{Server, Outside, and_then, with_seat, focus_view, focus_layer}
use cardboard.Seat.Keeps.{Holds, Holds-and_then_any}
use cardboard.Seat.Stack.{
  IsOnce, focus_view-IsOnce, focus_layer-IsOnce, focus_column-IsOnce, hide_view-IsOnce,
  map_view-IsOnce, unmap_view-IsOnce, set_exclusive_client-IsOnce, remove_from_focus_stack-IsOnce,
}
use cardboard.Seat.Views.{
  hide_view, focus_column, map_view, unmap_view, set_exclusive_client, remove_from_focus_stack,
  take_out, set_mapped,
}
use cardboard.Commands.Focus.{rotate_second, cycle_focus}

-- One operation that succeeds; `others` is any change that leaves the focus stack alone.
pub data Step (env : Env) (out : Outside) (w w' : Server) : Type 0 where
  focuses :
      (v : Option ℕ) (condense : Bool)
      → focus_view env out v condense w ≡ some w'
      → Step env out w w'
  focuses_layer : (layer : Option ℕ) → focus_layer env out layer w ≡ some w' → Step env out w w'
  focuses_column : (c : Column) → focus_column env out c w ≡ some w' → Step env out w w'
  hides_view : (v : ℕ) → hide_view env out v w ≡ some w' → Step env out w w'
  maps : (v : ℕ) → map_view env out v w ≡ some w' → Step env out w w'
  unmaps : (v : ℕ) → unmap_view env out v w ≡ some w' → Step env out w w'
  excludes :
      (client : Option ℕ) → set_exclusive_client env out client w ≡ some w' → Step env out w w'
  forgets : (v : ℕ) → w' ≡ remove_from_focus_stack v w → Step env out w w'
  cycles : (u : ℕ) → cycle_focus env out u w ≡ some w' → Step env out w w'
  others : w'.seat.focus_stack ≡ w.seat.focus_stack → Step env out w w'

pub data Reach (env : Env) (out : Outside) : Server → Type 0 where
  started : (w : Server) → w.seat.focus_stack ≡ [] → Reach env out w
  next : {w w' : Server} → Reach env out w → Step env out w w' → Reach env out w'

of_Holds : (P : Server → Type 0) (o : Option Server) (w : Server) → o ≡ some w → Holds P o → P w
of_Holds P o w e h = subst (Holds P) e h

rotated-IsOnce :
    (w : Server)
    → IsOnce w
    → Holds IsOnce (
        and_then
          (rotate_second w.seat.focus_stack)
          (λ stack. some (with_seat (λ seat. record seat { focus_stack = stack }) w)))
rotated-IsOnce w h = rotated w.seat.focus_stack h
  where
    rotated :
        (stack : List ℕ)
        → ((u : ℕ) → count u stack ≤ 1)
        → Holds IsOnce (
            and_then
              (rotate_second stack)
              (λ stack'. some (with_seat (λ seat. record seat { focus_stack = stack' }) w)))
    rotated [] k = tt
    rotated (v ∷ []) k = tt
    rotated (v ∷ u ∷ stack) k = λ x. ground (arith, count-append x stack (u ∷ []), k x)

cycle_focus-IsOnce :
    (env : Env) (out : Outside) (u : ℕ) (w : Server)
    → IsOnce w
    → Holds IsOnce (cycle_focus env out u w)
unfolding cycle_focus
cycle_focus-IsOnce env out u w h =
    focused (focus_view env out (some u) false w) (focus_view-IsOnce env out (some u) false w h)
  where
    focused :
        (o : Option Server)
        → Holds IsOnce o
        → Holds IsOnce (
            and_then o (λ w'.
              and_then
                (rotate_second w'.seat.focus_stack)
                (λ stack. some (with_seat (λ seat. record seat { focus_stack = stack }) w'))))
    focused none k = tt
    focused (some w') k = rotated-IsOnce w' k

Step-IsOnce : (env : Env) (out : Outside) (w w' : Server) → Step env out w w' → IsOnce w → IsOnce w'
Step-IsOnce env out w w' (focuses v condense e) h =
    of_Holds IsOnce (focus_view env out v condense w) w' e
      (focus_view-IsOnce env out v condense w h)
Step-IsOnce env out w w' (focuses_layer layer e) h =
    of_Holds IsOnce (focus_layer env out layer w) w' e (focus_layer-IsOnce env out layer w h)
Step-IsOnce env out w w' (focuses_column c e) h =
    of_Holds IsOnce (focus_column env out c w) w' e (focus_column-IsOnce env out c w h)
Step-IsOnce env out w w' (hides_view v e) h =
    of_Holds IsOnce (hide_view env out v w) w' e (hide_view-IsOnce env out v w h)
Step-IsOnce env out w w' (maps v e) h =
    of_Holds IsOnce (map_view env out v w) w' e (map_view-IsOnce env out v w h)
Step-IsOnce env out w w' (unmaps v e) h =
    of_Holds IsOnce (unmap_view env out v w) w' e (unmap_view-IsOnce env out v w h)
Step-IsOnce env out w w' (excludes client e) h =
    of_Holds IsOnce (set_exclusive_client env out client w) w' e
      (set_exclusive_client-IsOnce env out client w h)
Step-IsOnce env out w w' (forgets v e) h =
    subst IsOnce (sym e) (remove_from_focus_stack-IsOnce v w h)
Step-IsOnce env out w w' (cycles u e) h =
    of_Holds IsOnce (cycle_focus env out u w) w' e (cycle_focus-IsOnce env out u w h)
Step-IsOnce env out w w' (others same) h = λ u. subst (λ stack. count u stack ≤ 1) (sym same) (h u)

-- After any sequence of focusing views, layers and columns, hiding, mapping and unmapping views,
-- excluding clients, cycling the focus and forgetting views, from an empty focus stack, with changes
-- between them that leave the focus stack alone, no view is on the focus stack twice.
pub Reach-IsOnce : (env : Env) (out : Outside) (w : Server) → Reach env out w → IsOnce w
Reach-IsOnce env out w (started w0 empty) =
    λ u. subst (λ stack. count u stack ≤ 1) (sym empty) (omega arith)
Reach-IsOnce env out w' (next {w} before step) =
    Step-IsOnce env out w w' step (Reach-IsOnce env out w before)

-- A view that has been unmapped is not on the focus stack.
pub unmap_view-forgotten :
    (env : Env) (out : Outside) (v : ℕ) (w w' : Server)
    → unmap_view env out v w ≡ some w'
    → count v w'.seat.focus_stack ≡ 0
unfolding unmap_view remove_from_focus_stack
unmap_view-forgotten env out v w w' e =
    of_Holds (λ r. count v r.seat.focus_stack ≡ 0) (unmap_view env out v w) w' e
      (Holds-and_then_any (λ r. count v r.seat.focus_stack ≡ 0)
        (if (w.scene.view v).mapped
          then take_out env out v (set_mapped env out v false w)
          else some w)
        _
        (λ w1.
          Holds-and_then_any (λ r. count v r.seat.focus_stack ≡ 0) (hide_view env out v w1) _
            (λ w2. ground (arith, count-without v v w2.seat.focus_stack))))
