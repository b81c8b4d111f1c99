-- ===== src/Cutter/Examples.antt =====
-- The command line `cutter bind super+shift+Q workspace move 3`, and words like it.
use cardboard.Base.{◌≡◌, refl, Option, none, some, List, [], ◌∷◌, ◌==◌, if◌then◌else◌}
use cardboard.Base.Int.{ℤ, pos}
use cardboard.Base.Text.{Text, codes}
use cardboard.Protocol.{bind, workspace, move_to}
use cardboard.Cutter.{
  Library, ok, unexpected, find_mod_key, parse_arguments, parse_bind, parse_config_mouse_mod,
}
use cardboard.Cutter.Print.{bind_keys, move_workspace, parse_arguments-Spells}
use cardboard.Cutter.Tokens.{
  nothing, byte, word, no_words, modifier, no_modifiers, parse_bind-split_plus,
  parse_config_mouse_mod-split_plus,
}

-- Numbers of one digit.
abbrev digit : Text → Option ℤ
digit [] = none
digit (b ∷ []) = if b == 51 then some (pos 3) else none
digit (b ∷ c ∷ t) = none

abbrev pub ascii : Library
ascii = record {
  stoi = digit;
  read_int = digit;
  to_lower = λ b. if b == 81 then 113 else b;
  float_of_int = λ n. 0;
  float_div = λ a b. a;
}

abbrev keys : List Text
keys = codes "super" ∷ codes "shift" ∷ []

parse_arguments-Spells_example :
    parse_arguments ascii
      (codes "bind" ∷ codes "super+shift+Q" ∷ codes "workspace" ∷ codes "move" ∷ codes "3" ∷ [])
    ≡ ok (bind keys (codes "q") (workspace (move_to (pos 3))))
unfolding find_mod_key
parse_arguments-Spells_example =
    parse_arguments-Spells ascii
      (codes "bind" ∷ codes "super+shift+Q" ∷ codes "workspace" ∷ codes "move" ∷ codes "3" ∷ [])
      (bind keys (codes "q") (workspace (move_to (pos 3))))
      (bind_keys keys (codes "Q") (codes "workspace" ∷ codes "move" ∷ codes "3" ∷ [])
        (workspace (move_to (pos 3))) (modifier refl (modifier refl no_modifiers)) refl
        (word (byte refl (byte refl (byte refl (byte refl (byte refl nothing))))) (
          word (byte refl (byte refl (byte refl (byte refl (byte refl nothing)))))
            (word (byte refl nothing) no_words)))
        (move_workspace (codes "3") (pos 3) refl))

parse_bind-split_plus_example :
    parse_bind ascii (codes "alt++Q" ∷ codes "close" ∷ []) (ok (workspace (move_to (pos 3))))
    ≡ ok (bind (codes "alt" ∷ []) (codes "q") (workspace (move_to (pos 3))))
unfolding find_mod_key
parse_bind-split_plus_example =
    parse_bind-split_plus ascii (codes "alt++Q") (codes "close") [] (workspace (move_to (pos 3)))

parse_config_mouse_mod-split_plus_example :
    parse_config_mouse_mod (codes "alt+x" ∷ []) ≡ unexpected (codes "token 'x' is not a modifier")
unfolding find_mod_key
parse_config_mouse_mod-split_plus_example = parse_config_mouse_mod-split_plus (codes "alt+x")
