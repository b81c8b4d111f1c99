-- ===== src/Commands/Dispatch.antt =====
-- From a message to a command: `dispatch_command` of cardboard/commands/dispatch_command.cpp, and
-- what each of its closures runs.
--
-- `none` is `std::out_of_range`, which `mod_table.at` throws.
pub mod Total
use Prim.Native.Nat.{bit_or}
use cardboard.Base.{ℕ, true, false, Option, none, some, List, [], ◌∷◌, ◌++◌, if◌then◌else◌}
use cardboard.Base.Text.{Text, codes, text_eq}
use cardboard.Protocol
use cardboard.Protocol.{CommandData, WorkspaceCommand, ConfigCommand}
use cardboard.Seat.{and_then}
use cardboard.Commands
use cardboard.Commands.{
  Command, Compositor, World, Outcome, answer, config_mouse_mod, config_gap, config_focus_color,
  focus_to, focus_cycle, quit, bind, invalid_keysym, exec, close, workspace_switch, workspace_move,
  toggle_floating, move, resize_to, insert_into_column, pop_from_column, cycle_width,
  run_config_mouse_mod, run_config_gap, run_config_focus_color, run_quit, run_exec, run_close,
  run_bind, run_workspace_switch, run_workspace_move, run_resize,
}
use cardboard.Commands.Columns.{run_move, run_insert_into_column, run_pop_from_column}
use cardboard.Commands.Focus.{run_focus, run_focus_cycle}
use cardboard.Commands.Windows.{Ratios, run_toggle_floating, run_cycle_width}

-- `mod_table`, with the values of `wlr_keyboard_modifier`.
abbrev pub mod_table : List (Text × ℕ)
mod_table =
    (codes "shift", 1)
    ∷ (codes "ctrl", 4)
    ∷ (codes "alt", 8)
    ∷ (codes "super", 64)
    ∷ (codes "caps", 2)
    ∷ (codes "mod2", 16)
    ∷ (codes "mod3", 32)
    ∷ (codes "mod5", 128)
    ∷ []

abbrev pub find_mod : Text → List (Text × ℕ) → Option ℕ
find_mod name [] = none
find_mod name ((key, bit) ∷ table) = if text_eq key name then some bit else find_mod name table

-- The loop of `modifier_array_to_mask`.
unfoldable pub mask_from : ℕ → List Text → Option ℕ
mask_from mask [] = some mask
mask_from mask (name ∷ names) =
    and_then (find_mod name mod_table) (λ bit. mask_from (bit_or mask bit) names)

unfoldable pub modifier_array_to_mask : List Text → Option ℕ
unfolding mask_from
modifier_array_to_mask modifiers = mask_from 0 modifiers

abbrev dispatch_workspace : WorkspaceCommand → Command
dispatch_workspace (Protocol.switch_to n) = workspace_switch n
dispatch_workspace (Protocol.move_to n) = workspace_move n

abbrev dispatch_config : ConfigCommand → Option Command
dispatch_config (Protocol.mouse_mod modifiers) =
    and_then (modifier_array_to_mask modifiers) (λ mask. some (config_mouse_mod mask))
dispatch_config (Protocol.gap n) = some (config_gap n)
dispatch_config (Protocol.focus_color r g b a) = some (config_focus_color r g b a)

abbrev pub bind_key : Text → ℕ → Option ℕ → Option Command → Option Command
bind_key key mask none command = some (invalid_keysym key)
bind_key key mask (some sym) command = and_then command (λ c. some (bind mask sym c))

-- `keysym` is `xkb_keysym_from_name` without regard to case; `none` is `XKB_KEY_NoSymbol`.
module _ (keysym : Text → Option ℕ) where
  -- `dispatch_command`
  unfoldable pub dispatch_command : CommandData → Option Command
  unfolding modifier_array_to_mask
  dispatch_command (Protocol.quit code) = some (quit code)
  dispatch_command (Protocol.focus direction true) = some focus_cycle
  dispatch_command (Protocol.focus direction false) = some (focus_to direction)
  dispatch_command (Protocol.exec argv) = some (exec argv)
  dispatch_command (Protocol.bind modifiers key command) =
      let inner = dispatch_command command in
      and_then (modifier_array_to_mask modifiers) (λ mask. bind_key key mask (keysym key) inner)
  dispatch_command Protocol.close = some close
  dispatch_command (Protocol.workspace w) = some (dispatch_workspace w)
  dispatch_command Protocol.toggle_floating = some toggle_floating
  dispatch_command (Protocol.move dx dy) = some (move dx dy)
  dispatch_command (Protocol.resize width height) = some (resize_to width height)
  dispatch_command Protocol.insert_into_column = some insert_into_column
  dispatch_command Protocol.pop_from_column = some pop_from_column
  dispatch_command (Protocol.config config) = dispatch_config config
  dispatch_command Protocol.cycle_width = some cycle_width

-- What the closure does when it is called.
unfoldable pub run : World → Ratios → Command → Compositor → Outcome
run world q (config_mouse_mod modifiers) c = run_config_mouse_mod modifiers c
run world q (config_gap gap) c = run_config_gap world gap c
run world q (config_focus_color r g b a) c = run_config_focus_color r g b a c
run world q (focus_to direction) c = run_focus world direction c
run world q focus_cycle c = run_focus_cycle world c
run world q (quit code) c = run_quit code c
run world q (bind modifiers sym command) c = run_bind modifiers sym command c
run world q (invalid_keysym key) c = answer (codes "Invalid keysym: " ++ key) c
run world q (exec arguments) c = run_exec arguments c
run world q close c = run_close c
run world q (workspace_switch n) c = run_workspace_switch world n c
run world q (workspace_move n) c = run_workspace_move world n c
run world q toggle_floating c = run_toggle_floating world c
run world q (move dx dy) c = run_move world dx dy c
run world q (resize_to width height) c = run_resize world width height c
run world q insert_into_column c = run_insert_into_column world c
run world q pop_from_column c = run_pop_from_column world c
run world q cycle_width c = run_cycle_width world q c
