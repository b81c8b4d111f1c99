-- ===== src/Commands.antt =====
-- The commands of cardboard/commands/commands.h, as the keyboard and the connections run them, and
-- their state: the server with its grab, the configuration (Config.h) and the key bindings
-- (Keyboard.h).
--
-- A `Command` stands for the closure that `dispatch_command` makes. `none` is undefined behaviour:
-- `end()` dereferenced, an index out of range, or an assertion that fails.
pub mod Places
pub mod Columns
pub mod Focus
pub mod Windows
pub mod Dispatch
pub mod Input
pub mod Examples
use cardboard.Base.{
  ℕ, ◌==◌, true, Option, none, some, List, [], ◌∷◌, ◌++◌, if◌then◌else◌, length, ltb,
}
use cardboard.Base.Int.{ℤ, pos, negsuc}
use cardboard.Base.Text.{Text, codes}
use cardboard.Base.Store.{update}
use cardboard.Protocol.{Direction}
use cardboard.View.{View, Scene}
use cardboard.Workspace.{Tile, Workspace, Env, is_on_screen}
use cardboard.Workspace.Arrange.{arrange_workspace}
use cardboard.Seat.{
  Server, Outside, and_then, get_focused_view, get_view_workspace, index_of, store_workspace,
}
use cardboard.Seat.Grab.{Grabbing}
use cardboard.Cursor.{Pointing, Layers}
use cardboard.Motion.{Doubles}
use cardboard.Motion.Switch.{focus}
use cardboard.ViewOperations.{on_workspace, change_view_workspace, reconfigure_view_size}

-- What a bound command does, with its arguments. `bind` has the modifiers, the keysym and the
-- command.
pub data Command : Type 0 where
  config_mouse_mod : ℕ → Command
  config_gap : ℤ → Command
  config_focus_color : ℕ → ℕ → ℕ → ℕ → Command
  focus_to : Direction → Command
  focus_cycle : Command
  quit : ℤ → Command
  bind : ℕ → ℕ → Command → Command
  invalid_keysym : Text → Command
  exec : List Text → Command
  close : Command
  workspace_switch : ℤ → Command
  workspace_move : ℤ → Command
  toggle_floating : Command
  move : ℤ → ℤ → Command
  resize_to : ℤ → ℤ → Command
  insert_into_column : Command
  pop_from_column : Command
  cycle_width : Command

-- `Config`
pub record Config : Type 0 where
  pub mouse_mods : ℕ
  pub gap : ℤ
  pub focus_color : ℕ × ℕ × ℕ × ℕ

-- What a command asks of the rest of the compositor and of the operating system.
pub data Request : Type 0 where
  teardown : ℤ → Request
  spawn : List Text → Request
  close_view : ℕ → Request

-- `keybindings` has the table of each mask of modifiers.
pub record Compositor : Type 0 where
  pub grabbing : Grabbing
  pub config : Config
  pub keybindings : ℕ → List (ℕ × Command)
  pub requests : List Request

-- What the commands read: the environment of a workspace, but for the gap; what wlroots answers;
-- where the cursor is and what it finds where it is warped to; `double`, and `std::to_string`.
pub record World : Type 0 where
  pub env : Env
  pub out : Outside
  pub pointing : Pointing
  pub warped : ℤ → ℤ → Pointing
  pub layers : Layers
  pub doubles : Doubles
  pub to_string : ℤ → Text

abbrev pub Outcome : Type 0
Outcome = Option (Compositor × Text)

abbrev pub server_of : Compositor → Server
server_of c = c.grabbing.server

abbrev pub with_server : Compositor → Server → Compositor
with_server c w = record c { grabbing = record (c.grabbing) { server = w } }

-- The environment with the configured gap.
abbrev pub env_of : World → Compositor → Env
env_of world c = record (world.env) { gap = c.config.gap }

abbrev pub answer : Text → Compositor → Outcome
answer message c = some (c, message)

-- The server after an operation that answers nothing.
abbrev pub silently : Compositor → Option Server → Outcome
silently c none = none
silently c (some w) = answer [] (with_server c w)

abbrev pub views_workspace : Compositor → ℕ → Option Workspace
views_workspace c v = get_view_workspace (server_of c) v

abbrev pub index_of_view : Compositor → ℕ → ℕ
index_of_view c v = index_of ((server_of c).scene.view v).workspace_id

-- The compositor after an operation on a view's workspace.
abbrev pub store_view : ℕ → Compositor → Workspace × Scene → Compositor
store_view v c r = with_server c (store_workspace (index_of_view c v) (server_of c) r)

abbrev pub store_if : ℕ → Compositor → Option (Workspace × Scene) → Outcome
store_if v c none = none
store_if v c (some r) = answer [] (store_view v c r)

-- The first view that is mapped and normal.
abbrev pub first_on_screen : (ℕ → View) → List Tile → Option ℕ
first_on_screen view [] = none
first_on_screen view (t ∷ ts) = if is_on_screen view t then some t.view else first_on_screen view ts

-- The loop of `config_gap` over the workspaces.
abbrev pub arrange_all : Env → List Workspace → Scene → Scene
arrange_all env [] s = s
arrange_all env (ws ∷ wss) s = arrange_all env wss (arrange_workspace env ws true s)

unfoldable pub run_config_mouse_mod : ℕ → Compositor → Outcome
run_config_mouse_mod modifiers c =
    answer [] (record c { config = record (c.config) { mouse_mods = modifiers } })

unfoldable pub run_config_focus_color : ℕ → ℕ → ℕ → ℕ → Compositor → Outcome
run_config_focus_color r g b a c =
    answer [] (record c { config = record (c.config) { focus_color = (r, g, b, a) } })

unfoldable pub run_quit : ℤ → Compositor → Outcome
run_quit code c = answer [] (record c { requests = c.requests ++ teardown code ∷ [] })

unfoldable pub run_exec : List Text → Compositor → Outcome
run_exec arguments c = answer [] (record c { requests = c.requests ++ spawn arguments ∷ [] })

abbrev close_focused : Option ℕ → Compositor → Compositor
close_focused none c = c
close_focused (some v) c = record c { requests = c.requests ++ close_view v ∷ [] }

unfoldable pub run_close : Compositor → Outcome
run_close c = answer [] (close_focused (get_focused_view (server_of c).seat) c)

-- `std::unordered_map::insert`: a key that is there keeps its value.
abbrev pub insert_new : ℕ → Command → List (ℕ × Command) → List (ℕ × Command)
insert_new sym command [] = (sym, command) ∷ []
insert_new sym command ((key, old) ∷ m) =
    if key == sym then (key, old) ∷ m else (key, old) ∷ insert_new sym command m

-- `commands::bind`. The array has 255 tables, and an index behind them is undefined.
unfoldable pub run_bind : ℕ → ℕ → Command → Compositor → Outcome
run_bind modifiers sym command c =
    if ltb modifiers 255
    then answer [] (record c {
      keybindings =
          update c.keybindings modifiers (insert_new sym command (c.keybindings modifiers));
    })
    else none

-- Whether `n` is the index of one of so many workspaces.
abbrev pub index_in : ℤ → ℕ → Option ℕ
index_in (pos n) size = if ltb n size then some n else none
index_in (negsuc n) size = none

abbrev pub invalid_number : Text
invalid_number = codes "Invalid Workspace number"

module _ (world : World) where
  unfoldable pub run_config_gap : ℤ → Compositor → Outcome
  run_config_gap gap c =
      let c' = record c { config = record (c.config) { gap = gap } } in
      let w = server_of c' in
      answer []
        (with_server c' (record w { scene = arrange_all (env_of world c') w.workspaces w.scene }))

  -- `arrange_workspace` of the workspace at a position.
  abbrev pub arrange_at : ℕ → Compositor → Option Compositor
  arrange_at n c =
      and_then
        (on_workspace n (λ ws s. some (ws, arrange_workspace (env_of world c) ws true s))
          (server_of c))
        (λ w. some (with_server c w))

  abbrev switch_to : Option ℕ → ℤ → Compositor → Outcome
  switch_to none n c = answer invalid_number c
  switch_to (some i) n c =
      and_then
        (focus (env_of world c) world.out world.warped world.layers world.doubles i c.grabbing)
        (λ g.
          and_then (arrange_at i (record c { grabbing = g }))
            (λ c'. answer (codes "Changed to workspace: " ++ world.to_string n) c'))

  -- `commands::workspace_switch`
  unfoldable pub run_workspace_switch : ℤ → Compositor → Outcome
  run_workspace_switch n c = switch_to (index_in n (length (server_of c).workspaces)) n c

  abbrev pub move_focused : Option ℕ → ℕ → ℤ → Compositor → Outcome
  move_focused none i n c = answer (codes "No view to move in current workspace") c
  move_focused (some v) i n c =
      and_then
        (change_view_workspace (env_of world c) world.out world.pointing world.layers v i
          (server_of c))
        (λ w.
          and_then (arrange_at i (with_server c w))
            (λ c'. answer (codes "Moved focused window to workspace " ++ world.to_string n) c'))

  abbrev pub move_to : Option ℕ → ℤ → Compositor → Outcome
  move_to none n c = answer invalid_number c
  move_to (some i) n c = move_focused (get_focused_view (server_of c).seat) i n c

  -- `commands::workspace_move`
  unfoldable pub run_workspace_move : ℤ → Compositor → Outcome
  run_workspace_move n c = move_to (index_in n (length (server_of c).workspaces)) n c

  abbrev resize_focused : Option ℕ → ℤ → ℤ → Compositor → Outcome
  resize_focused none width height c = answer [] c
  resize_focused (some v) width height c =
      silently c (reconfigure_view_size (env_of world c) v width height (server_of c))

  -- `commands::resize`
  unfoldable pub run_resize : ℤ → ℤ → Compositor → Outcome
  run_resize width height c = resize_focused (get_focused_view (server_of c).seat) width height c
