-- ===== src/Seat/Keeps.antt =====
-- What the focus operations of cardboard/Seat.cpp keep: a property of the server that the few
-- changes they are made of keep is kept by all of them.
use cardboard.Base.{
  ℕ, ◌≡◌, refl, ◌∙◌, Bool, true, false, Option, none, some, List, ◌==◌, if◌then◌else◌, any,
}
use cardboard.View.{Scene, same_ref, set_activated, close_popups}
use cardboard.View.Frame.{set_activated_view, close_popups_view}
use cardboard.Workspace.{Column, Env}
use cardboard.Seat.{
  Seat, Server, Outside, and_then, with_seat, get_focused_view, get_view_workspace, push_focus,
  splice_front, move_view_to_front, fit_on_screen, deactivate_previous, give_focus, focus_view_only,
  leave_layer, enter_layer, focus_layer, focus_view, hidden_by_fullscreen, is_input_allowed,
  keyboard_notify_enter, focus_again, leave_focused, focus_under,
}
use cardboard.Seat.Views.{
  hide_view, focus_column, set_exclusive_client, focus_found, drop_layer, drop_view, drop_pointer,
  differs,
}

-- What is true of the server if the operation succeeds.
abbrev pub Holds : (Server → Type 0) → Option Server → Type 0
Holds P none = Unit {0}
Holds P (some w) = P w

module _ (P : Server → Type 0) where
  pub Holds-and_then :
      (o : Option Server) (f : Server → Option Server)
      → Holds P o
      → ((w : Server) → P w → Holds P (f w))
      → Holds P (and_then o f)
  Holds-and_then none f h k = tt
  Holds-and_then (some w) f h k = k w h

  pub Holds-and_then_any :
      {A : Type 0} (o : Option A) (f : A → Option Server)
      → ((a : A) → Holds P (f a))
      → Holds P (and_then o f)
  Holds-and_then_any none f k = tt
  Holds-and_then_any (some a) f k = k a

  pub Holds-if :
      (b : Bool) (x y : Option Server) → Holds P x → Holds P y → Holds P (if b then x else y)
  Holds-if true x y h k = h
  Holds-if false x y h k = k

-- The changes that the focus operations are made of.
pub record IsKept (env : Env) (P : Server → Type 0) : Type 0 where
  pub scenes : (w : Server) (s : Scene) → s.view ≡ w.scene.view → P w → P (record w { scene = s })
  pub seats :
      (w : Server) (seat : Seat)
      → seat.focus_stack ≡ w.seat.focus_stack
      → P w
      → P (record w { seat = seat })
  pub pushes :
      (v : ℕ) (w : Server)
      → P w
      → P (with_seat (λ seat. record seat { focus_stack = push_focus v seat.focus_stack }) w)
  pub orders : (w : Server) (vs : List ℕ) → P w → P (record w { views = vs })
  pub fits : (v : ℕ) (condense : Bool) (w : Server) → P w → Holds P (fit_on_screen env v condense w)

module _ (env : Env) (out : Outside) (P : Server → Type 0) (k : IsKept env P) where
  deactivate_previous-keeps : (p : Option ℕ) (w : Server) → P w → P (deactivate_previous out p w)
  unfolding deactivate_previous
  deactivate_previous-keeps none w h = h
  deactivate_previous-keeps (some p) w h =
      let s = set_activated p false (close_popups p w.scene) in
      k.seats (record w { scene = s }) _ refl
        (k.scenes w s
          (set_activated_view p false (close_popups p w.scene) ∙ close_popups_view p w.scene) h)

  give_focus-keeps :
      (v : ℕ) (condense : Bool) (w : Server) → P w → Holds P (give_focus env out v condense w)
  unfolding give_focus move_view_to_front
  give_focus-keeps v condense w h =
      Holds-if P (is_input_allowed out w.seat (out.get_surface v)) _ _
        (Holds-and_then P (move_view_to_front v pushed) _
          (Holds-if P (any (λ u. u == v) w.views)
            (some (record pushed { views = splice_front v w.views })) none
            (k.orders pushed (splice_front v w.views) (k.pushes v w h)) tt)
          (λ w' h'.
            let s = set_activated v true w'.scene in
            k.fits v condense
              (with_seat (keyboard_notify_enter out (out.get_surface v)) (record w' { scene = s }))
              (k.seats (record w' { scene = s }) _ refl
                (k.scenes w' s (set_activated_view v true w'.scene) h'))))
        h
    where
      pushed : Server
      pushed = with_seat (λ seat. record seat { focus_stack = push_focus v seat.focus_stack }) w

  focus_view_only-keeps :
      (v : Option ℕ) (condense : Bool) (w : Server)
      → P w
      → Holds P (focus_view_only env out v condense w)
  unfolding focus_view_only
  focus_view_only-keeps none condense w h = deactivate_previous-keeps (get_focused_view w.seat) w h
  focus_view_only-keeps (some v) condense w h =
      Holds-if P (same_ref (get_focused_view w.seat) (some v)) _ _ (k.fits v condense w h) (
        Holds-and_then_any P (get_view_workspace w v) _ (λ ws.
          Holds-if P (hidden_by_fullscreen out v ws) (some w) _ h (
            give_focus-keeps v condense (deactivate_previous out (get_focused_view w.seat) w)
              (deactivate_previous-keeps (get_focused_view w.seat) w h))))

  leave_layer-keeps : (w : Server) → P w → Holds P (leave_layer env out w)
  unfolding leave_layer
  leave_layer-keeps w h = again (get_focused_view left.seat)
    where
      left : Server
      left = with_seat (λ seat. record seat { focused_layer = none }) w

      left-keeps : P left
      left-keeps = k.seats w _ refl h

      again : (f : Option ℕ) → Holds P (focus_again env out f left)
      again none = left-keeps
      again (some f) =
          Holds-and_then P (focus_view_only env out none false left) _
            (focus_view_only-keeps none false left left-keeps)
            (λ w' h'. focus_view_only-keeps (some f) false w' h')

  enter_layer-keeps : (layer : ℕ) (w : Server) → P w → Holds P (enter_layer out layer w)
  unfolding enter_layer
  enter_layer-keeps layer w h =
      Holds-if P (same_ref w.seat.focused_layer (some layer)) (some w) _ h
        (Holds-if P (out.layer_mapped layer) _ none (k.seats w _ refl h) tt)

  pub focus_layer-keeps :
      (layer : Option ℕ) (w : Server) → P w → Holds P (focus_layer env out layer w)
  unfolding focus_layer
  focus_layer-keeps none w h = leave w.seat.focused_layer
    where
      leave : (l : Option ℕ) → Holds P (leave_focused env out l w)
      leave none = h
      leave (some l) = leave_layer-keeps w h
  focus_layer-keeps (some layer) w h = enter_layer-keeps layer w h

  pub focus_view-keeps :
      (v : Option ℕ) (condense : Bool) (w : Server)
      → P w
      → Holds P (focus_view env out v condense w)
  unfolding focus_view
  focus_view-keeps v condense w h = under w.seat.focused_layer
    where
      under : (l : Option ℕ) → Holds P (focus_under env out l v condense w)
      under none = focus_view_only-keeps v condense w h
      under (some l) = Holds-and_then P (leave_layer env out w) _ (leave_layer-keeps w h) (λ w' h'.
          Holds-and_then P (focus_view_only env out v condense w') _
            (focus_view_only-keeps v condense w' h') (λ w'' h''. enter_layer-keeps l w'' h''))

  pub focus_found-keeps :
      (v : Option ℕ) (condense : Bool) (w : Server)
      → P w
      → Holds P (focus_found env out v condense w)
  focus_found-keeps none condense w h = h
  focus_found-keeps (some v) condense w h = focus_view-keeps (some v) condense w h

  pub hide_view-keeps : (v : ℕ) (w : Server) → P w → Holds P (hide_view env out v w)
  unfolding hide_view
  hide_view-keeps v w h =
      Holds-if P (same_ref (get_focused_view w.seat) (some v)) _ (some w)
        (focus_found-keeps _ true w h) h

  pub focus_column-keeps : (c : Column) (w : Server) → P w → Holds P (focus_column env out c w)
  unfolding focus_column
  focus_column-keeps c w h = focus_found-keeps _ false w h

  pub set_exclusive_client-keeps :
      (client : Option ℕ) (w : Server) → P w → Holds P (set_exclusive_client env out client w)
  unfolding set_exclusive_client
  set_exclusive_client-keeps none w h = k.seats w _ refl h
  set_exclusive_client-keeps (some client) w h =
      Holds-and_then P (drop_layer env out client w) _
        (Holds-if P _ (focus_layer env out none w) (some w) (focus_layer-keeps none w h) h)
        (λ w' h'.
          Holds-and_then P (drop_view env out client w') _
            (Holds-if P _ (focus_view env out none false w') (some w')
              (focus_view-keeps none false w' h') h')
            (λ w'' h''.
              k.seats (drop_pointer env out client w'') _ refl (drop_pointer-keeps w'' h'')))
    where
      drop_pointer-keeps : (w : Server) → P w → P (drop_pointer env out client w)
      drop_pointer-keeps w h = either (differs env out w.seat.pointer_client client)
        where
          either :
              (b : Bool)
              → P (
                  if b
                  then with_seat
                      (λ seat. record seat {
                        pointer_client = out.pointer_clear_focus seat.pointer_client;
                      })
                      w
                  else w)
          either true = k.seats w _ refl h
          either false = h
