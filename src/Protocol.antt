-- ===== src/Protocol.antt =====
-- The messages between cutter and the compositor: libcardboard/include/cardboard/command_protocol.h.
pub mod Header
mod Examples
use cardboard.Base.{ℕ, Bool, List}
use cardboard.Base.Int.{ℤ}
use cardboard.Base.Text.{Text}

pub data Direction : Type 0 where
  left right up down : Direction

-- `command_arguments::workspace::workspace`
pub data WorkspaceCommand : Type 0 where
  switch_to : ℤ → WorkspaceCommand
  move_to : ℤ → WorkspaceCommand

-- `command_arguments::config::config`; a colour channel is the bit pattern of a `float`.
pub data ConfigCommand : Type 0 where
  mouse_mod : List Text → ConfigCommand
  gap : ℤ → ConfigCommand
  focus_color : ℕ → ℕ → ℕ → ℕ → ConfigCommand

-- `CommandData`
pub data CommandData : Type 0 where
  quit : ℤ → CommandData
  focus : Direction → Bool → CommandData
  exec : List Text → CommandData
  bind : List Text → Text → CommandData → CommandData
  close : CommandData
  workspace : WorkspaceCommand → CommandData
  toggle_floating : CommandData
  move : ℤ → ℤ → CommandData
  resize : ℤ → ℤ → CommandData
  insert_into_column : CommandData
  pop_from_column : CommandData
  config : ConfigCommand → CommandData
  cycle_width : CommandData
