-- ===== src/Cursor/Examples.antt =====
-- A pointer over a server with one window, and the theorems about what is under it.
use cardboard.Base.{refl, true, false, none, some, [], ◌∷◌}
use cardboard.Base.Int.{pos}
use cardboard.Seat.Examples.{wlroots, server}
use cardboard.Cursor.{Pointing, Layers, cursor_rebase}
use cardboard.Cursor.Inhibit.{IsPointerAllowed, cursor_rebase-IsPointerAllowed}

-- The cursor is over every window, and over no layer.
abbrev pub hovering : Pointing
hovering = record {
  lx = 0;
  ly = 0;
  output_at_cursor = some 0;
  output_at = λ x y. some 0;
  layer_mapped = λ l. true;
  layer_output = λ l. some 0;
  layer_geometry = λ l. record { x = pos 0; y = pos 0; width = pos 0; height = pos 0 };
  or_mapped = λ x. false;
  or_position = λ x. (pos 0, pos 0);
  or_has_surface = λ x. false;
  view_surface_at = λ v x y. some v;
  layer_surface_at = λ l x y. none;
  or_surface_at = λ x y z. none;
  minus = λ a b. a;
  pointer_enter = λ s old. some 1;
}

abbrev pub panels : Layers
panels = record {
  background = 20 ∷ [];
  bottom = [];
  top = 21 ∷ [];
  overlay = [];
  xwayland_or_surfaces = [];
}

cursor_rebase-IsPointerAllowed_example :
    IsPointerAllowed (cursor_rebase hovering wlroots panels (server [])).seat
cursor_rebase-IsPointerAllowed_example =
    cursor_rebase-IsPointerAllowed wlroots hovering panels (server [])
      (record { enters = λ s old. refl; clears = λ old. refl })
