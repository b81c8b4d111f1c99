-- ===== src/Commands/Focus.antt =====
-- The commands that move the focus: `focus` and `focus_cycle` of cardboard/commands/commands.h.
use cardboard.Base.{
  ℕ, zero, suc, ◌==◌, Bool, true, false, Option, none, some, List, [], ◌∷◌, ◌++◌, if◌then◌else◌,
  get_elem?,
}
use cardboard.Base.Int.{pos, eqb_ℤ}
use cardboard.Base.Text.{codes}
use cardboard.Protocol.{Direction, left, right, up, down}
use cardboard.View.{View}
use cardboard.Workspace.{Tile, Column, Workspace, Env, find_column}
use cardboard.Seat.{Server, Outside, and_then, with_seat, get_focused_view, focus_view}
use cardboard.Seat.Views.{focus_column, get_focused_workspace, find_focus}
use cardboard.Commands.{
  Compositor, World, Outcome, server_of, env_of, answer, silently, views_workspace, first_on_screen,
}

-- The tiles behind the first one of a view.
abbrev pub behind : ℕ → List Tile → List Tile
behind v [] = []
behind v (t ∷ ts) = if t.view == v then ts else behind v ts

abbrev reversed : List Tile → List Tile
reversed [] = []
reversed (t ∷ ts) = reversed ts ++ t ∷ []

-- A step of the focus, to a neighbour in the row of columns or in the column.
abbrev pub neighbour : ℕ → Direction → (ℕ → View) → List Tile → Option ℕ
neighbour v left view ts = none
neighbour v right view ts = none
neighbour v up view ts = first_on_screen view (behind v (reversed ts))
neighbour v down view ts = first_on_screen view (behind v ts)

-- The index of the column that `left` and `right` lead to, if it is not out of bounds.
abbrev pub column_beside : Direction → ℕ → Option ℕ
column_beside left zero = none
column_beside left (suc i) = some i
column_beside right i = some (suc i)
column_beside up i = none
column_beside down i = none

abbrev pub is_sideways : Direction → Bool
is_sideways left = true
is_sideways right = true
is_sideways up = false
is_sideways down = false

-- The second view of the focus stack goes to its end.
abbrev pub rotate_second : List ℕ → Option (List ℕ)
rotate_second [] = none
rotate_second (v ∷ []) = none
rotate_second (v ∷ u ∷ stack) = some (v ∷ stack ++ u ∷ [])

-- The view that `focus_cycle` has found gets the focus, and the one that had it goes to the end of
-- the focus stack.
unfoldable pub cycle_focus : Env → Outside → ℕ → Server → Option Server
cycle_focus env out u w = and_then (focus_view env out (some u) false w) (λ w'.
    and_then (rotate_second w'.seat.focus_stack)
      (λ stack. some (with_seat (λ seat. record seat { focus_stack = stack }) w')))

module _ (world : World) where
  abbrev focus_if : Option ℕ → Compositor → Outcome
  focus_if none c = answer [] c
  focus_if (some u) c =
      silently c (focus_view (env_of world c) world.out (some u) false (server_of c))

  abbrev focus_beside : Option Column → Compositor → Outcome
  focus_beside none c = answer [] c
  focus_beside (some column) c =
      silently c (focus_column (env_of world c) world.out column (server_of c))

  abbrev column_at : List Column → Option ℕ → Option Column
  column_at cs none = none
  column_at cs (some i) = get_elem? cs i

  abbrev pub focus_from : ℕ → Direction → Workspace → Compositor → Outcome
  focus_from v direction ws c =
      let i = find_column (some v) ws.columns in
      elim (get_elem? ws.columns i) [
        | none ↦ answer (codes "Focused view is floating") c
        | some column ↦
            if is_sideways direction
            then focus_beside (column_at ws.columns (column_beside direction i)) c
            else focus_if (neighbour v direction (server_of c).scene.view column.tiles) c
      ]

  abbrev focus_of : Option ℕ → Direction → Compositor → Outcome
  focus_of none direction c = answer (codes "No focused view to use as reference") c
  focus_of (some v) direction c = and_then (views_workspace c v) (λ ws. focus_from v direction ws c)

  -- `commands::focus`
  unfoldable pub run_focus : Direction → Compositor → Outcome
  run_focus direction c = focus_of (get_focused_view (server_of c).seat) direction c

  abbrev cycle_to : Option ℕ → Compositor → Outcome
  cycle_to none c = answer [] c
  cycle_to (some u) c = silently c (cycle_focus (env_of world c) world.out u (server_of c))

  abbrev cycle_on : List ℕ → Workspace → Compositor → Outcome
  cycle_on [] ws c = none
  cycle_on (v ∷ stack) ws c =
      cycle_to
        (find_focus (λ u. eqb_ℤ ((server_of c).scene.view u).workspace_id (pos ws.index)) stack) c

  abbrev cycle_in : Option Workspace → Compositor → Outcome
  cycle_in none c = answer [] c
  cycle_in (some ws) c = cycle_on (server_of c).seat.focus_stack ws c

  -- `commands::focus_cycle`; `none` on an empty focus stack, behind whose end it begins.
  unfoldable pub run_focus_cycle : Compositor → Outcome
  run_focus_cycle c =
      cycle_in (get_elem? (server_of c).workspaces (get_focused_workspace world.out (server_of c)))
        c
