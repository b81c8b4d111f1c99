-- ===== src/Seat/Examples.antt =====
-- A server with one workspace of two windows, and the theorems about the focus there.
use cardboard.Base.{ℕ, ◌≡◌, refl, arith, true, false, Option, none, some, List, [], ◌∷◌, ◌+◌, ◌*◌}
use cardboard.Base.Int.{pos}
use cardboard.Base.Count.{count}
use cardboard.View.{View, xdg, normal, set_activated, change_output, close_popups}
use cardboard.Workspace.{Workspace, Env}
use cardboard.Workspace.Arrange.{arrange_workspace}
use cardboard.Workspace.Edit.{new_column, remove_view}
use cardboard.Workspace.Life.{create_workspace}
use cardboard.Seat.{
  Server, Outside, focus_view, focus_view_only, give_focus, move_view_to_front, fit_on_screen,
  deactivate_previous,
}
use cardboard.Seat.Focused.{Gives, IsFocused, focus_view-IsFocused}
use cardboard.Seat.Grab.{Grabbing, Pointer, begin_resize, end_interactive}
use cardboard.Seat.Released.{end_interactive-begin_resize}
use cardboard.Seat.Life.{started, next, focuses, Reach-IsOnce, unmap_view-forgotten}
use cardboard.Seat.Stack.{IsOnce}
use cardboard.Seat.Views.{unmap_view, hide_view}

abbrev pub screen : Env
screen = record {
  gap = pos 10;
  output_box = λ o. record { x = pos 0; y = pos 0; width = pos 1000; height = pos 600 };
  usable_area = λ o. record { x = pos 0; y = pos 0; width = pos 1000; height = pos 600 };
  float = record {
    add = λ a b. a + b;
    mul = λ a b. a * b;
    div = λ a b. a;
    of_size_t = λ n. n;
    to_int = pos;
  };
  now = 0;
}

-- Each view is its own surface, and all belong to one client.
abbrev pub wlroots : Outside
wlroots = record {
  get_surface = λ v. v;
  layer_surface = λ l. l;
  client_of = λ s. 1;
  layer_client = λ l. 2;
  is_transient_for = λ v f. false;
  layer_mapped = λ l. true;
  layer_on_top = λ l. true;
  output_under_cursor = λ o. true;
  notify_enter = λ s old. some s;
  clear_focus = λ old. none;
  pointer_clear_focus = λ old. none;
}

abbrev pub window : View
window = record {
  shell = xdg;
  is_toplevel = true;
  geometry = record { x = pos 0; y = pos 0; width = pos 300; height = pos 400 };
  saved_state = none;
  expansion_state = normal;
  previous_size = (pos 0, pos 0);
  workspace_id = pos 0;
  x = pos 0;
  y = pos 0;
  target_x = pos 0;
  target_y = pos 0;
  target_width = pos 300;
  target_height = pos 400;
  mapped = true;
  new_view = false;
}

abbrev pub desk : Workspace
desk = record (create_workspace 0) { columns = new_column 7 0 ∷ new_column 8 1 ∷ [] }

abbrev pub server : List ℕ → Server
server stack = record {
  seat = record {
    focus_stack = stack;
    focused_layer = none;
    exclusive_client = some 1;
    focused_surface = some 7;
    pointer_client = none;
  };
  workspaces = desk ∷ [];
  views = 7 ∷ 8 ∷ [];
  scene = record { view = λ v. window; tasks = []; log = [] };
}

focus_view-IsFocused_example :
    Gives
      (IsFocused 8 (8 ∷ 7 ∷ 9 ∷ []))
      (focus_view screen wlroots (some 8) true (server (7 ∷ 9 ∷ 8 ∷ [])))
focus_view-IsFocused_example =
    focus_view-IsFocused screen wlroots 8 true (server (7 ∷ 9 ∷ 8 ∷ [])) desk (λ s old. refl) refl
      refl refl refl refl (λ u. ground arith)

-- The server after an operation.
abbrev pub after : Option Server → Server
after none = server []
after (some w) = w

Reach-IsOnce_example : IsOnce (after (focus_view screen wlroots (some 8) true (server [])))
unfolding focus_view focus_view_only give_focus move_view_to_front fit_on_screen deactivate_previous
    set_activated
Reach-IsOnce_example =
    Reach-IsOnce screen wlroots (after (focus_view screen wlroots (some 8) true (server [])))
      (next (started (server []) refl) (focuses (some 8) true refl))

unmap_view-forgotten_example :
    count 7 (after (unmap_view screen wlroots 7 (server (7 ∷ 8 ∷ [])))).seat.focus_stack ≡ 0
unfolding unmap_view hide_view focus_view focus_view_only give_focus move_view_to_front
    fit_on_screen deactivate_previous remove_view arrange_workspace change_output set_activated
    close_popups
unmap_view-forgotten_example =
    unmap_view-forgotten screen wlroots 7 (server (7 ∷ 8 ∷ []))
      (after (unmap_view screen wlroots 7 (server (7 ∷ 8 ∷ [])))) refl

abbrev pub mouse : Pointer
mouse = record {
  x = 0;
  y = 0;
  focused_surface = some 8;
  double_of_int = λ n. 0;
  add = λ a b. a + b;
  mul = λ a b. a * b;
}

abbrev pub idle : Grabbing
idle = record { server = server (7 ∷ 8 ∷ []); grab_state = none; rebased = 0 }

abbrev grabbed : Option Grabbing → Grabbing
grabbed none = idle
grabbed (some g) = g

-- The pointer has moved during the resize, and the workspace has been scrolled.
abbrev dragged : Grabbing
unfolding begin_resize
dragged =
    let g = grabbed (begin_resize wlroots mouse 8 4 idle) in
    record g {
      server = record (g.server) {
        workspaces = record desk { scroll_x = pos 40; suspend_animations = true } ∷ [];
      };
    }

end_interactive-begin_resize_example :
    ((end_interactive dragged).server.workspaces ≡ record desk { scroll_x = pos 40 } ∷ [])
    × ((end_interactive dragged).server.scene ≡ dragged.server.scene)
    × ((end_interactive dragged).grab_state ≡ none)
    × ((end_interactive (grabbed (begin_resize wlroots mouse 8 4 idle))).server.workspaces
        ≡ desk ∷ [])
unfolding begin_resize
end_interactive-begin_resize_example =
    end_interactive-begin_resize wlroots mouse 8 4 idle
      (grabbed (begin_resize wlroots mouse 8 4 idle)) dragged desk
      (record desk { scroll_x = pos 40; suspend_animations = true }) refl refl refl refl refl
