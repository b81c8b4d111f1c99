-- ===== src/Motion/Turn.antt =====
-- The end of a swipe between workspaces: `process_swipe_end` of cardboard/Seat.cpp, whose loop goes
-- through the workspaces once around.
pub mod Round
use cardboard.Base.{
  ℕ, zero, suc, ◌+◌, ◌-◌, ◌%◌, ◌==◌, Bool, true, false, Option, none, some, List, [], ◌∷◌,
  if◌then◌else◌, get_elem?, length,
}
use cardboard.Base.Int.{ℤ}
use cardboard.Workspace.{Env}
use cardboard.Seat.{Outside, and_then}
use cardboard.Seat.Grab.{Grabbing, GrabState, move, resize, workspace_scroll, workspace_switch}
use cardboard.Cursor.{Pointing, Layers}
use cardboard.Motion.{Doubles}
use cardboard.Motion.Switch.{focus}

-- `wrap_advance`, by -1 or by 1.
unfoldable pub wrap_advance : ℕ → Bool → ℕ → ℕ
wrap_advance index true size = (index + size - 1) % size
wrap_advance index false size = (index + 1 + size) % size

-- The positions that the loop goes through from `i` until it is at `start`, with as many rounds as
-- the first argument allows; `none` if these are too few.
unfoldable pub visits : ℕ → Bool → (size start i : ℕ) → Option (List ℕ)
unfolding wrap_advance
visits zero back size start i = none
visits (suc n) back size start i =
    let rest = visits n back size start (wrap_advance i back size) in
    if i == start then some [] else and_then rest (λ is. some (i ∷ is))

module _ (env : Env) (out : Outside) (warped : ℤ → ℤ → Pointing) (layers : Layers)
    (d : Doubles) where
  -- A workspace that is on no output gets the focus.
  abbrev focus_hidden : ℕ → Option ℕ → Grabbing → Option Grabbing
  focus_hidden i none g = focus env out warped layers d i g
  focus_hidden i (some o) g = some g

  unfoldable pub focus_each : List ℕ → Grabbing → Option Grabbing
  focus_each [] g = some g
  focus_each (i ∷ is) g =
      and_then (get_elem? g.server.workspaces i)
        (λ ws. and_then (focus_hidden i ws.output g) (focus_each is))

  abbrev turn : Bool → ℕ → Grabbing → Option Grabbing
  turn back start g =
      let size = length g.server.workspaces in
      and_then (visits size back size start (wrap_advance start back size)) (λ is. focus_each is g)

  abbrev end_swipe : Option GrabState → Grabbing → Option Grabbing
  end_swipe none g = some g
  end_swipe (some (move v lx ly view_x view_y)) g = some g
  end_swipe (some (resize v lx ly geometry edges i scroll_x view_x view_y old)) g = some g
  end_swipe (some (workspace_switch i direction)) g =
      and_then (get_elem? g.server.workspaces i) (λ ws. turn (d.greater 0 direction) ws.index g)
  end_swipe (some (workspace_scroll i dominant speed delta scroll_x ready stop)) g =
      some (record g {
        grab_state = some (workspace_scroll i dominant speed delta scroll_x ready true);
      })

  -- `Seat::process_swipe_end`. No change of the focus changes how many workspaces there are, so
  -- the loop counts them once.
  unfoldable pub process_swipe_end : Grabbing → Option Grabbing
  unfolding visits focus_each
  process_swipe_end g = end_swipe g.grab_state g
