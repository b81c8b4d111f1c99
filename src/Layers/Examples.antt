-- ===== src/Layers/Examples.antt =====
-- A bar at the top edge of an output with two windows.
use cardboard.Base.{ℕ, refl, true, false, Option, none, some, [], ◌∷◌}
use cardboard.Base.Int.{ℤ, pos, ◌+ℤ◌, ◌-ℤ◌}
use cardboard.Seat.Examples.{screen, wlroots, desk, server}
use cardboard.Cursor.{Layers}
use cardboard.Layers.{
  Level, background, bottom, top, overlay, LayerState, LayerSurface, Shell, apply_exclusive_zone,
  place_axis, add_margins, reserve,
}
use cardboard.Layers.Arrange.{arrange_layers}
use cardboard.Layers.Handlers.{create_layer, register_layer, commit_handler, change_level}
use cardboard.Layers.Filed.{IsFiled, IsUnfiled}
use cardboard.Layers.Life.{Reach, started, next, creates, Reach-IsFiled}
use cardboard.Layers.Usable.{IsInside, arrange_layers-IsInside}

-- 30 pixels high, from the left to the right edge.
abbrev bar_state : ℤ → Level → LayerState
bar_state zone level = record {
  anchor = 13;
  exclusive_zone = zone;
  margin_top = pos 0;
  margin_right = pos 0;
  margin_bottom = pos 0;
  margin_left = pos 0;
  desired_width = 0;
  desired_height = 30;
  keyboard_interactive = false;
  level = level;
}

abbrev bar : ℤ → LayerSurface
bar zone = record {
  geometry = record { x = pos 0; y = pos 0; width = pos 0; height = pos 0 };
  layer = top;
  output = some 0;
  current = bar_state zone overlay;
  client_pending = bar_state zone top;
  mapped = true;
}

abbrev no_layers : Layers
no_layers = record {
  background = [];
  bottom = [];
  top = [];
  overlay = [];
  xwayland_or_surfaces = [];
}

abbrev shell : ℤ → Layers → Shell
shell zone layers = record {
  panels = record { layers = layers; surface = λ l. bar zone; told = [] };
  env = screen;
  server = record (server []) { workspaces = record desk { output = some 0 } ∷ [] };
}

abbrev after : Option Shell → Shell
after none = shell (pos 0) no_layers
after (some sh) = sh

abbrev resolution : ℕ → ℤ × ℤ
resolution o = (pos 1000, pos 600)

abbrev one_bar : Shell
one_bar = shell (pos 30) (record no_layers { top = 20 ∷ [] })

arrange_layers-IsInside_example :
    IsInside
      (pos 1000, pos 600)
      ((after (arrange_layers wlroots (pos 1000, pos 600) 0 one_bar)).env.usable_area 0)
unfolding arrange_layers add_margins ◌-ℤ◌ place_axis ◌+ℤ◌ apply_exclusive_zone reserve
arrange_layers-IsInside_example =
    arrange_layers-IsInside wlroots (pos 1000, pos 600) 0 one_bar
      (after (arrange_layers wlroots (pos 1000, pos 600) 0 one_bar)) refl

abbrev created : Shell
created = after (create_layer wlroots resolution 20 (shell (pos 0) no_layers))

nowhere : (l : ℕ) → IsUnfiled l (shell (pos 0) no_layers).panels
nowhere l background = refl
nowhere l bottom = refl
nowhere l top = refl
nowhere l overlay = refl

created-Reach : Reach wlroots resolution created
unfolding arrange_layers add_margins ◌-ℤ◌ place_axis ◌+ℤ◌ apply_exclusive_zone reserve create_layer
    register_layer commit_handler change_level
created-Reach =
    next {sh = shell (pos 0) no_layers} (started nowhere)
      (creates {sh = shell (pos 0) no_layers} {sh' = created} 20 (nowhere 20) refl)

Reach-IsFiled_example : IsFiled created.panels
Reach-IsFiled_example = Reach-IsFiled wlroots resolution created-Reach
