-- ===== src/Layers/Yields.antt =====
-- What an operation on the layers makes true where it succeeds.
use cardboard.Base.{ℕ, Bool, true, false, Option, none, some, if◌then◌else◌}
use cardboard.Seat.{Server, Outside, and_then, focus_layer}
use cardboard.Layers.{Shell}
use cardboard.Layers.Arrange.{focus_topmost, drop_focus, focus_shell, seen}

-- What is true of the shell when the operation succeeds.
abbrev pub Yields : (Shell → Type 0) → Option Shell → Type 0
Yields P none = Unit {0}
Yields P (some sh) = P sh

pub Yields-and_then :
    (P Q : Shell → Type 0) (o : Option Shell) (f : Shell → Option Shell)
    → Yields P o
    → ((sh : Shell) → P sh → Yields Q (f sh))
    → Yields Q (and_then o f)
Yields-and_then P Q none f h k = tt
Yields-and_then P Q (some sh) f h k = k sh h

-- What a change of the server alone leaves as it is.
module _ (P : Shell → Type 0)
    (keeps : (sh : Shell) (w : Server) → P sh → P (record sh { server = w })) where
  pub with_server-Yields :
      (sh : Shell) (o : Option Server)
      → P sh
      → Yields P (and_then o (λ w. some (record sh { server = w })))
  with_server-Yields sh none h = tt
  with_server-Yields sh (some w) h = keeps sh w h

  pub focus_topmost-Yields :
      (out : Outside) (l : Option ℕ) (sh : Shell) → P sh → Yields P (focus_topmost out l sh)
  focus_topmost-Yields out (some l) sh h =
      with_server-Yields sh (focus_layer sh.env (seen sh.panels out) (some l) sh.server) h
  focus_topmost-Yields out none sh h = dropped sh.server.seat.focused_layer
    where
      kept : (b : Bool) → Yields P (if b then some sh else focus_shell out none sh)
      kept true = h
      kept false = with_server-Yields sh (focus_layer sh.env (seen sh.panels out) none sh.server) h

      dropped : (f : Option ℕ) → Yields P (drop_focus out f sh)
      dropped none = h
      dropped (some l) = kept _
