-- ===== src/Cursor/Inhibit.antt =====
-- The pointer while a client has the input for itself (cardboard/Cursor.cpp and Seat.cpp).
use cardboard.Base.{ℕ, ◌≡◌, ◌⊎◌, inl, Option, none, some, arith}
use cardboard.Seat.{Seat, Server, Outside}
use cardboard.Cursor.{Pointing, Layers, Found, get_surface_under_cursor, cursor_rebase, rebase_on}

-- The pointer is on no surface, or on one of the client that has the input for itself.
abbrev pub IsPointerAllowed : Seat → Type 0
IsPointerAllowed seat =
    (c : ℕ)
    → seat.exclusive_client ≡ some c
    → (seat.pointer_client ≡ none) ⊎ (seat.pointer_client ≡ some c)

-- What wlroots does to the pointer's focus: it enters the client of the surface, or none.
pub record PointerLaws (out : Outside) (p : Pointing) : Type 0 where
  pub enters : (s : ℕ) (old : Option ℕ) → p.pointer_enter s old ≡ some (out.client_of s)
  pub clears : (old : Option ℕ) → out.pointer_clear_focus old ≡ none

-- If wlroots gives the pointer to the client of the surface that it enters, and to none when it is
-- cleared: whatever is under the cursor, after cursor_rebase the pointer is on no surface of another
-- client than the one that has the input for itself.
pub cursor_rebase-IsPointerAllowed :
    (out : Outside) (p : Pointing) (layers : Layers) (w : Server)
    → PointerLaws out p
    → IsPointerAllowed (cursor_rebase p out layers w).seat
unfolding cursor_rebase
cursor_rebase-IsPointerAllowed out p layers w laws c e =
    rebased (get_surface_under_cursor p layers w) e
  where
    rebased :
        (f : Option Found)
        → (rebase_on p out f w).seat.exclusive_client ≡ some c
        → ((rebase_on p out f w).seat.pointer_client ≡ none)
          ⊎ ((rebase_on p out f w).seat.pointer_client ≡ some c)
    rebased none e = inl (laws.clears w.seat.pointer_client)
    rebased (some f) e =
        ground
          (arith, laws.clears w.seat.pointer_client, laws.enters f.surface w.seat.pointer_client)
