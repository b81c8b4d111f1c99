-- ===== src/Commands/Input.antt =====
-- The keys and the buttons: `KeyboardHandleData::key_handler` of cardboard/Keyboard.cpp, and the
-- handlers of the pointer's buttons and motions of Seat.cpp. Images of the cursor are left out.
use Prim.Native.Nat.{bit_and}
use cardboard.Base.{
  ℕ, ◌+◌, ◌-◌, ◌==◌, Bool, true, false, ◌&&◌, Option, none, some, List, [], ◌∷◌, ◌++◌,
  if◌then◌else◌, ltb, leb,
}
use cardboard.Base.Int.{◌+ℤ◌, half_ℤ}
use cardboard.View.{View, same_ref}
use cardboard.Seat.{and_then, with_seat, get_focused_view, focus_view}
use cardboard.Seat.Grab.{
  Grabbing, Pointer, begin_move, begin_resize, end_interactive, end_touchpad_swipe,
}
use cardboard.Cursor.{Pointing, Found, get_surface_under_cursor}
use cardboard.Motion.{Doubles, process_cursor_motion}
use cardboard.Commands.{Command, Compositor, World, server_of, env_of}
use cardboard.Commands.Dispatch.{run}
use cardboard.Commands.Windows.{Ratios}

-- A key event: whether the key is pressed, the modifiers, the keysyms of the key, their lower case,
-- and whether the session can change the virtual terminal.
pub record Key : Type 0 where
  pub pressed : Bool
  pub modifiers : ℕ
  pub syms : List ℕ
  pub keysym_to_lower : ℕ → ℕ
  pub has_session : Bool

-- What the handler asks of wlroots.
pub data KeyRequest : Type 0 where
  change_vt : ℕ → KeyRequest
  notify_key : KeyRequest

-- `std::unordered_map::find`
abbrev pub find_binding : ℕ → List (ℕ × Command) → Option Command
find_binding sym [] = none
find_binding sym ((key, command) ∷ m) = if key == sym then some command else find_binding sym m

-- `XKB_KEY_XF86Switch_VT_1`
abbrev switch_vt_1 : ℕ
switch_vt_1 = 0x1008fe01

abbrev is_switch_vt : ℕ → Bool
is_switch_vt sym = leb switch_vt_1 sym && leb sym (switch_vt_1 + 11)

-- The loop over the keysyms that changes the virtual terminal: what it asks for, and whether a
-- keysym was for that.
unfoldable pub change_vts : Bool → List ℕ → List KeyRequest × Bool
change_vts has_session [] = ([], false)
change_vts has_session (sym ∷ syms) =
    let (requests, handled) = change_vts has_session syms in
    if is_switch_vt sym
    then (if has_session then change_vt (sym - switch_vt_1 + 1) ∷ requests else requests, true)
    else (requests, handled)

module _ (world : World) (q : Ratios) where
  -- The loop over the keysyms that runs their commands.
  unfoldable pub run_bindings : Key → List ℕ → Compositor × Bool → Option (Compositor × Bool)
  run_bindings k [] r = some r
  run_bindings k (sym ∷ syms) (c, handled) =
      let next = run_bindings k syms in
      if ltb k.modifiers 255
      then elim (find_binding (k.keysym_to_lower sym) (c.keybindings k.modifiers)) [
        | none ↦ next (c, handled)
        | some command ↦ and_then (run world q command c) (λ r. next (r.0, true))
      ]
      else none

  abbrev pub unless_exclusive : Key → Option ℕ → Compositor → Option (Compositor × Bool)
  unless_exclusive k none c = run_bindings k k.syms (c, false)
  unless_exclusive k (some client) c = some (c, false)

  abbrev pub finish_key : Key → Compositor × Bool → Compositor × List KeyRequest
  finish_key k (c, true) = (c, [])
  finish_key k (c, false) =
      let (requests, handled) = change_vts k.has_session k.syms in
      (c, if handled then requests else requests ++ notify_key ∷ [])

  -- `KeyboardHandleData::key_handler`
  unfoldable pub key_handler : Key → Compositor → Option (Compositor × List KeyRequest)
  unfolding run_bindings change_vts
  key_handler k c =
      if k.pressed
      then and_then (unless_exclusive k (server_of c).seat.exclusive_client c)
          (λ r. some (finish_key k r))
      else some (c, notify_key ∷ [])

-- A button event: the code of the button, the modifiers of the keyboard, if there is one, and the
-- pointer as the grabs see it.
pub record Button : Type 0 where
  pub released : Bool
  pub button : ℕ
  pub keyboard_modifiers : Option ℕ
  pub pointer : Pointer

-- `Seat::is_mod_pressed`
unfoldable pub is_mod_pressed : Option ℕ → ℕ → Bool
is_mod_pressed none mods = false
is_mod_pressed (some modifiers) mods = bit_and modifiers mods == mods

-- The edges that a resize holds: 8 or 4 for the right or the left, and 2 or 1 for the bottom or the
-- top.
abbrev pub edges_at : Doubles → Pointing → View → ℕ
edges_at d p w =
    (if d.greater p.lx (d.of_int (w.x +ℤ w.geometry.x +ℤ half_ℤ w.geometry.width)) then 8 else 4)
    + (if d.greater p.ly (d.of_int (w.y +ℤ w.geometry.y +ℤ half_ℤ w.geometry.height)) then 2 else 1)

module _ (world : World) where
  abbrev with_grabbing : Compositor → Grabbing → Compositor
  with_grabbing c g = record c { grabbing = g }

  -- `wlr_seat_pointer_clear_focus`
  abbrev clear_pointer : Grabbing → Grabbing
  clear_pointer g = record g {
    server =
        with_seat
          (λ seat. record seat {
            pointer_client = world.out.pointer_clear_focus seat.pointer_client;
          })
          g.server;
  }

  -- `BTN_LEFT` is 272 and `BTN_RIGHT` is 273.
  abbrev pub grab_with : Button → ℕ → Grabbing → Option Grabbing
  grab_with b v g =
      if b.button == 272
      then and_then (begin_move world.out b.pointer v g) (λ g'. some (clear_pointer g'))
      else if b.button == 273
      then and_then
          (begin_resize world.out b.pointer v
            (edges_at world.doubles world.pointing (g.server.scene.view v)) g)
          (λ g'. some (clear_pointer g'))
      else some g

  abbrev pub focus_pressed : ℕ → Compositor → Option Compositor
  focus_pressed v c =
      if same_ref (some v) (get_focused_view (server_of c).seat)
      then some c
      else and_then (focus_view (env_of world c) world.out (some v) false (server_of c))
          (λ w. some (with_grabbing c (record (c.grabbing) { server = w })))

  abbrev press_view : Button → Option ℕ → Compositor → Option Compositor
  press_view b none c = some c
  press_view b (some v) c =
      if is_mod_pressed b.keyboard_modifiers c.config.mouse_mods
      then and_then (grab_with b v c.grabbing) (λ g. some (with_grabbing c g))
      else focus_pressed v c

  abbrev view_found : Option Found → Option ℕ
  view_found none = none
  view_found (some found) = found.view

  -- `Seat::cursor_button_handler`
  unfoldable pub cursor_button_handler : Button → Compositor → Option Compositor
  cursor_button_handler b c =
      if b.released
      then some (with_grabbing c (end_interactive c.grabbing))
      else press_view b
          (view_found (get_surface_under_cursor world.pointing world.layers (server_of c))) c

  abbrev move_to_pointing : Pointing → Compositor → Grabbing → Option Compositor
  move_to_pointing p c g =
      and_then (process_cursor_motion (env_of world c) world.out p world.layers world.doubles g)
        (λ g'. some (with_grabbing c g'))

  -- `Seat::cursor_motion_handler`, with the cursor as wlroots has moved it.
  unfoldable pub cursor_motion_handler : Pointing → Compositor → Option Compositor
  cursor_motion_handler p c = move_to_pointing p c (end_touchpad_swipe c.grabbing)

  -- `Seat::cursor_motion_absolute_handler`
  unfoldable pub cursor_motion_absolute_handler : Pointing → Compositor → Option Compositor
  cursor_motion_absolute_handler p c = move_to_pointing p c c.grabbing

-- `Seat::cursor_axis_handler`
unfoldable pub cursor_axis_handler : Compositor → Compositor
cursor_axis_handler c = record c { grabbing = end_touchpad_swipe c.grabbing }
