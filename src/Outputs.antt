-- ===== src/Outputs.antt =====
-- Outputs that come, change and go: the handlers of cardboard/OutputManager.cpp and Output.cpp.
use cardboard.Base.{
  ℕ, ◌==◌, Bool, true, false, not, Option, none, some, List, [], ◌∷◌, ◌++◌, if◌then◌else◌,
  get_elem?, find_position, length,
}
use cardboard.Base.Int.{ℤ}
use cardboard.Base.Count.{without}
use cardboard.Base.Store.{update}
use cardboard.View.{same_ref}
use cardboard.Workspace.{Workspace}
use cardboard.Workspace.Arrange.{arrange_workspace}
use cardboard.Workspace.Edit.Output.{activate, deactivate}
use cardboard.Workspace.Life.{create_workspace}
use cardboard.Seat.{Outside, and_then, store_workspace}
use cardboard.ViewOperations.{on_workspace}
use cardboard.Layers.{Shell, full_area}
use cardboard.Layers.Arrange.{arrange_layers}

-- The layers, the server, and the list of the outputs.
pub record Display : Type 0 where
  pub shell : Shell
  pub outputs : List ℕ

abbrev pub shows : Option ℕ → Workspace → Bool
shows o ws = same_ref ws.output o

abbrev is_shown : Option ℕ → Bool
is_shown none = false
is_shown (some o) = true

abbrev with_workspaces : Shell → List Workspace → Shell
with_workspaces sh wss = record sh { server = record (sh.server) { workspaces = wss } }

-- The first workspace that is on no output, at its position, made if there is none.
abbrev pub with_spare : Shell → Shell × ℕ
with_spare sh =
    let wss = sh.server.workspaces in
    let i = find_position (λ (ws : Workspace). not (is_shown ws.output)) wss in
    if i == length wss
    then (with_workspaces sh (wss ++ create_workspace (length wss) ∷ []), i)
    else (sh, i)

abbrev pub activate_at : ℕ → ℕ → Shell → Option Shell
activate_at o i sh =
    and_then (on_workspace i (λ ws s. some (activate o ws s)) sh.server)
      (λ w. some (record sh { server = w }))

abbrev deactivate_found : ℕ → Option Workspace → Shell → Shell
deactivate_found i none sh = sh
deactivate_found i (some ws) sh = record sh {
  server = store_workspace i sh.server (deactivate ws sh.server.scene);
}

abbrev arrange_found : Shell → Option Workspace → Shell
arrange_found sh none = sh
arrange_found sh (some ws) = record sh {
  server = record (sh.server) { scene = arrange_workspace sh.env ws true sh.server.scene };
}

abbrev pub position_of : ℕ → Shell → ℕ
position_of o sh = find_position (shows (some o)) sh.server.workspaces

-- `arrange_output`
unfoldable pub arrange_output : ℕ → Shell → Shell
arrange_output o sh = arrange_found sh (get_elem? sh.server.workspaces (position_of o sh))

abbrev with_shell : Display → Shell → Display
with_shell d sh = record d { shell = sh }

-- `Output::destroy_handler`
unfoldable pub destroy_handler : ℕ → Display → Display
destroy_handler o d =
    let i = position_of o d.shell in
    record {
      shell = deactivate_found i (get_elem? d.shell.server.workspaces i) d.shell;
      outputs = without o d.outputs;
    }

module _ (out : Outside) where
  -- `OutputManager::output_layout_add_handler`, with the effective resolution of the output.
  unfoldable pub output_layout_add_handler : ℤ × ℤ → ℕ → Display → Option Display
  output_layout_add_handler size o d =
      let env = record (d.shell.env) {
        usable_area = update d.shell.env.usable_area o (full_area size);
      } in
      let (sh, i) = with_spare (record (d.shell) { env = env }) in
      and_then (activate_at o i sh) (λ sh'.
        and_then (arrange_layers out size o sh')
          (λ sh''. some (record { shell = sh''; outputs = d.outputs ++ o ∷ [] })))

  -- `Output::mode_handler`
  unfoldable pub mode_handler : ℤ × ℤ → ℕ → Display → Option Display
  unfolding arrange_output
  mode_handler size o d =
      and_then (arrange_layers out size o d.shell) (λ sh. some (with_shell d (arrange_output o sh)))

  -- `Output::commit_handler`, by whether the scale or the transform is committed.
  unfoldable pub commit_handler : Bool → ℤ × ℤ → ℕ → Display → Option Display
  unfolding mode_handler
  commit_handler changed size o d = if changed then mode_handler size o d else some d
