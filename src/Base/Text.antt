-- ===== src/Base/Text.antt =====
-- Byte strings: the `std::string` values of the program.
use Prim.Native.Char.{code}
use Prim.Native.String.{String}
use cardboard.Base.{ℕ, ◌≡◌, refl, Bool, true, false, List, [], ◌∷◌, ◌&&◌, ◌==◌, arith, any}

abbrev pub Text : Type 0
Text = List ℕ

-- The bytes of an ASCII literal.
abbrev pub codes : String → Text
codes String.[] = []
codes (String.◌∷◌ c s) = code c ∷ codes s

abbrev pub text_eq : Text → Text → Bool
text_eq [] [] = true
text_eq [] (b ∷ t) = false
text_eq (a ∷ s) [] = false
text_eq (a ∷ s) (b ∷ t) = a == b && text_eq s t

pub text_eq_refl : (s : Text) → text_eq s s ≡ true
text_eq_refl [] = refl
text_eq_refl (a ∷ s) = ground (arith, text_eq_refl s)

-- Whether a text is one of a list.
abbrev pub is_one_of : List Text → Text → Bool
is_one_of keys s = any (λ k. text_eq k s) keys
