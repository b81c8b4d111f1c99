-- ===== src/Commands/Places.antt =====
-- Where the commands leave the views: `workspace_move` of cardboard/commands/commands.h against the
-- abstract state that gives each view its workspace.
use cardboard.Base.{ℕ, ◌≡◌, refl, Option, none, some, ◌++◌, true, arith, subst, length}
use cardboard.Base.Int.{ℤ}
use cardboard.Base.Text.{Text, codes}
use cardboard.Base.Store.{update}
use cardboard.Workspace.Arrange.{arrange_workspace}
use cardboard.Seat.{Server, and_then, get_focused_view}
use cardboard.Seat.Keeps.{Holds}
use cardboard.ViewOperations.{change_view_workspace}
use cardboard.ViewOperations.Places.{Owner, Implements, Implements-same, SamePlaces}
use cardboard.ViewOperations.Frame.{arranges-ids}
use cardboard.ViewOperations.Fullscreen.{IsSame, on_workspace-SamePlaces}
use cardboard.ViewOperations.Simulates.{change-Implements}
use cardboard.Commands.{
  Compositor, World, Outcome, server_of, with_server, env_of, arrange_at, index_in, move_to, answer,
  run_workspace_move,
}

-- What is true of the server when the command succeeds.
abbrev pub Leaves : (Server → Type 0) → Outcome → Type 0
Leaves P none = Unit {0}
Leaves P (some (c, message)) = P (server_of c)

abbrev HoldsAll : (Server → Type 0) → Option Compositor → Type 0
HoldsAll P none = Unit {0}
HoldsAll P (some c) = P (server_of c)

-- The abstract command: the view goes to the workspace, if the number is that of one.
abbrev pub sent : Owner → ℕ → Option ℕ → Owner
sent owner v none = owner
sent owner v (some i) = update owner v (some i)

arrange_at-Implements :
    (world : World) (owner : Owner) (i : ℕ) (c : Compositor)
    → Implements owner (server_of c)
    → HoldsAll (Implements owner) (arrange_at world i c)
arrange_at-Implements world owner i c h = lifted _ (
    on_workspace-SamePlaces (λ ws s. some (ws, arrange_workspace (env_of world c) ws true s)) i
      (server_of c)
      (λ ws r e.
        let e' : (ws, arrange_workspace (env_of world c) ws true (server_of c).scene) ≡ r =
          ground (arith, e) in
        subst (λ r. IsSame ws (server_of c).scene r) e'
          ((refl, refl), refl, arranges-ids (env_of world c) ws true (server_of c).scene)))
  where
    lifted :
        (o : Option Server)
        → Holds (SamePlaces (server_of c)) o
        → HoldsAll (Implements owner) (and_then o (λ w. some (with_server c w)))
    lifted none k = tt
    lifted (some w) k = Implements-same owner (server_of c) w k h

answers :
    (P : Server → Type 0) (message : Text) (o : Option Compositor)
    → HoldsAll P o
    → Leaves P (and_then o (answer message))
answers P message none h = tt
answers P message (some c) h = h

-- If workspace_move succeeds while a view has the focus that is on a workspace: with the number of
-- a workspace this view is then on that one, and with any other number on the one where it was; and
-- all other views are where they were. The workspaces implement this, as they did before.
pub run_workspace_move-Leaves :
    (world : World) (n : ℤ) (c : Compositor) (owner : Owner) (v k : ℕ)
    → Implements owner (server_of c)
    → get_focused_view (server_of c).seat ≡ some v
    → owner v ≡ some k
    → Leaves
        (Implements (sent owner v (index_in n (length (server_of c).workspaces))))
        (run_workspace_move world n c)
unfolding run_workspace_move
run_workspace_move-Leaves world n c owner v k h focused owns =
    number (index_in n (length (server_of c).workspaces))
  where
    moved :
        (i : ℕ) (o : Option Server)
        → Holds (Implements (update owner v (some i))) o
        → Leaves (Implements (update owner v (some i))) (
            and_then o (λ w.
              and_then (arrange_at world i (with_server c w)) (λ c'.
                answer (codes "Moved focused window to workspace " ++ world.to_string n) c')))
    moved i none h' = tt
    moved i (some w) h' =
        answers (Implements (update owner v (some i)))
          (codes "Moved focused window to workspace " ++ world.to_string n)
          (arrange_at world i (with_server c w))
          (arrange_at-Implements world (update owner v (some i)) i (with_server c w) h')

    number : (o : Option ℕ) → Leaves (Implements (sent owner v o)) (move_to world o n c)
    number none = h
    number (some i) = rw (focused) (
        moved i
          (change_view_workspace (env_of world c) world.out world.pointing world.layers v i
            (server_of c))
          (change-Implements (env_of world c) world.out world.pointing world.layers owner v k i
            (server_of c) h owns))
