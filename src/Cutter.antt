-- ===== src/Cutter.antt =====
-- The command line of cutter: cutter/parse_arguments.h.
--
-- `std::stoi`, the extraction of an `int` from a stream, `std::tolower` in the user's locale and the
-- two float operations are the parameter `Library`.
pub mod Tokens
pub mod Print
pub mod Examples
use Prim.Native.String.{String}
use cardboard.Base.{
  ℕ, zero, suc, ◌==◌, Bool, true, false, Option, none, some, List, [], ◌∷◌, ◌++◌, map,
  if◌then◌else◌, length,
}
use cardboard.Base.Int.{ℤ, pos}
use cardboard.Base.Text.{Text, codes, text_eq, is_one_of}
use cardboard.Protocol.{
  left, right, up, down, switch_to, move_to, mouse_mod, gap, focus_color, CommandData, quit, focus,
  exec, bind, close, workspace, toggle_floating, move, resize, insert_into_column, pop_from_column,
  config, cycle_width,
}

-- `stoi` and `read_int` give nothing where `std::stoi` throws and where `>>` fails.
pub record Library : Type 0 where
  pub stoi : Text → Option ℤ
  pub read_int : Text → Option ℤ
  pub to_lower : ℕ → ℕ
  pub float_of_int : ℤ → ℕ
  pub float_div : ℕ → ℕ → ℕ

-- What a parser does: it returns a value or an error, or it throws.
pub data Result {ℓ} (A : Type ℓ) : Type ℓ where
  ok : A → Result A
  unexpected : Text → Result A
  thrown : Result A

abbrev pub Parsed : Type 0
Parsed = Result CommandData

-- `std::stoi` of an argument, then the rest.
abbrev pub with_int : Option ℤ → (ℤ → Parsed) → Parsed
with_int none next = thrown
with_int (some n) next = next n

abbrev pub mod_keys : List Text
mod_keys =
    codes "shift"
    ∷ codes "ctrl"
    ∷ codes "alt"
    ∷ codes "super"
    ∷ codes "caps"
    ∷ codes "mod2"
    ∷ codes "mod3"
    ∷ codes "mod5"
    ∷ []

unfoldable pub find_mod_key : Text → Bool
find_mod_key key = is_one_of mod_keys key

-- The character '+'.
abbrev pub plus : ℕ
plus = 43

-- `substr(pos, plus_index - pos)`, on the text from `pos` on.
abbrev pub token_of : Text → Text
token_of [] = []
token_of (b ∷ t) = if b == plus then [] else b ∷ token_of t

-- The text from `plus_index + 1` on, if there is a plus.
abbrev pub after_plus : Text → Option Text
after_plus [] = none
after_plus (b ∷ t) = if b == plus then some t else after_plus t

-- The text from the next `pos` on.
abbrev pub next_pos : Option Text → Text
next_pos none = []
next_pos (some t) = t

abbrev pub quoted : String → Text → String → Text
quoted before s after = codes before ++ s ++ codes after

-- The loop of `parse_config_mouse_mod`, with the modifiers so far, on the text from `pos` on.
unfoldable pub mouse_mod_loop : ℕ → List Text → Text → Result (List Text)
mouse_mod_loop zero modifiers t = ok modifiers
mouse_mod_loop (suc fuel) modifiers [] = ok modifiers
mouse_mod_loop (suc fuel) modifiers (b ∷ t) =
    let token = token_of (b ∷ t) in
    let rest = mouse_mod_loop fuel (modifiers ++ token ∷ []) (next_pos (after_plus (b ∷ t))) in
    if find_mod_key token then rest else unexpected (quoted "token '" token "' is not a modifier")

abbrev pub to_mouse_mod : Result (List Text) → Parsed
to_mouse_mod (ok modifiers) = ok (config (mouse_mod modifiers))
to_mouse_mod (unexpected e) = unexpected e
to_mouse_mod thrown = thrown

unfoldable pub parse_config_mouse_mod : List Text → Parsed
parse_config_mouse_mod [] = unexpected (codes "malformed config value")
parse_config_mouse_mod (t ∷ []) = to_mouse_mod (mouse_mod_loop (length t) [] t)
parse_config_mouse_mod (t ∷ u ∷ args) = unexpected (codes "malformed config value")

unfoldable pub parse_quit : Library → List Text → Parsed
parse_quit lib [] = ok (quit (pos 0))
parse_quit lib (t ∷ args) = from_stream (lib.read_int t)
  where
    from_stream : Option ℤ → Parsed
    from_stream none = unexpected (quoted "malformed exit code '" t "'")
    from_stream (some n) = ok (quit n)

unfoldable pub parse_focus : List Text → Parsed
parse_focus [] = unexpected (codes "not enough arguments")
parse_focus (t ∷ args) =
    if text_eq t (codes "left")
    then ok (focus left false)
    else if text_eq t (codes "right")
    then ok (focus right false)
    else if text_eq t (codes "up")
    then ok (focus up false)
    else if text_eq t (codes "down")
    then ok (focus down false)
    else if text_eq t (codes "cycle")
    then ok (focus left true)
    else unexpected (quoted "invalid direction '" t "'")

abbrev pub parse_exec : List Text → Parsed
parse_exec args = ok (exec args)

unfoldable pub parse_config_gap : Library → List Text → Parsed
parse_config_gap lib [] = unexpected (codes "malformed config value")
parse_config_gap lib (t ∷ []) = with_int (lib.stoi t) (λ n. ok (config (gap n)))
parse_config_gap lib (t ∷ u ∷ args) = unexpected (codes "malformed config value")

-- The bit pattern of `255.f`.
abbrev float_255 : ℕ
float_255 = 1132396544

-- `static_cast<float>(n) / 255.f`
abbrev pub channel : Library → ℤ → ℕ
channel lib n = lib.float_div (lib.float_of_int n) float_255

unfoldable pub parse_config_focus_color : Library → List Text → Parsed
parse_config_focus_color lib (r ∷ g ∷ b ∷ a ∷ []) = with_int (lib.stoi r) (λ r.
    with_int (lib.stoi g) (λ g. with_int (lib.stoi b) (λ b. with_int (lib.stoi a) (λ a.
      ok (config (focus_color (channel lib r) (channel lib g) (channel lib b) (channel lib a)))))))
parse_config_focus_color lib [] = unexpected (codes "malformed config values")
parse_config_focus_color lib (r ∷ []) = unexpected (codes "malformed config values")
parse_config_focus_color lib (r ∷ g ∷ []) = unexpected (codes "malformed config values")
parse_config_focus_color lib (r ∷ g ∷ b ∷ []) = unexpected (codes "malformed config values")
parse_config_focus_color lib (r ∷ g ∷ b ∷ a ∷ t ∷ args) =
    unexpected (codes "malformed config values")

-- The loop of `parse_bind`, with the modifiers and the key so far: a token that is no modifier
-- becomes the key, in lower case, and replaces the one before.
unfoldable pub bind_loop : Library → ℕ → List Text → Text → Text → List Text × Text
bind_loop lib zero modifiers key t = (modifiers, key)
bind_loop lib (suc fuel) modifiers key [] = (modifiers, key)
bind_loop lib (suc fuel) modifiers key (b ∷ t) =
    let token = token_of (b ∷ t) in
    let is_mod = find_mod_key token in
    bind_loop lib fuel (if is_mod then modifiers ++ token ∷ [] else modifiers)
      (if is_mod then key else map lib.to_lower token) (next_pos (after_plus (b ∷ t)))

abbrev pub bound : List Text × Text → Parsed → Parsed
bound (modifiers, key) (ok command) = ok (bind modifiers key command)
bound keys (unexpected e) = unexpected (codes "could not parse sub command: " ++ 10 ∷ e)
bound keys thrown = thrown

-- The second list of words is the sub-command, and `command_data` what `parse_arguments` makes of it.
unfoldable pub parse_bind : Library → List Text → Parsed → Parsed
parse_bind lib [] command_data = unexpected (codes "not enough arguments")
parse_bind lib (t ∷ []) command_data = unexpected (codes "not enough arguments")
parse_bind lib (t ∷ u ∷ args) command_data = bound (bind_loop lib (length t) [] [] t) command_data

unfoldable pub parse_workspace : Library → List Text → Parsed
parse_workspace lib [] = unexpected (codes "not enough arguments")
parse_workspace lib (t ∷ []) =
    if is_one_of (codes "switch" ∷ codes "move" ∷ []) t
    then unexpected (codes "not enough arguments")
    else unexpected (codes "unknown workspace sub-command")
parse_workspace lib (t ∷ n ∷ args) =
    if text_eq t (codes "switch")
    then with_int (lib.stoi n) (λ n. ok (workspace (switch_to n)))
    else if text_eq t (codes "move")
    then with_int (lib.stoi n) (λ n. ok (workspace (move_to n)))
    else unexpected (codes "unknown workspace sub-command")

unfoldable pub parse_move : Library → List Text → Parsed
parse_move lib [] = unexpected (codes "not enough arguments")
parse_move lib (dx ∷ []) = with_int (lib.stoi dx) (λ dx. ok (move dx (pos 0)))
parse_move lib (dx ∷ dy ∷ args) =
    with_int (lib.stoi dx) (λ dx. with_int (lib.stoi dy) (λ dy. ok (move dx dy)))

unfoldable pub parse_resize : Library → List Text → Parsed
parse_resize lib [] = unexpected (codes "not enough arguments")
parse_resize lib (width ∷ []) = unexpected (codes "not enough arguments")
parse_resize lib (width ∷ height ∷ args) =
    with_int (lib.stoi width)
      (λ width. with_int (lib.stoi height) (λ height. ok (resize width height)))

unfoldable pub parse_config : Library → List Text → Parsed
parse_config lib [] = unexpected (codes "not enough arguments")
parse_config lib (key ∷ new_args) =
    if text_eq key (codes "mouse_mod")
    then parse_config_mouse_mod new_args
    else if text_eq key (codes "focus_color")
    then parse_config_focus_color lib new_args
    else if text_eq key (codes "gap")
    then parse_config_gap lib new_args
    else unexpected (quoted "invalid config key '" key "''")

-- The lookup in `parse_table` and the call. The entries without parameters do not read the words.
unfoldable pub call_parser : Library → Text → List Text → Parsed → Parsed
call_parser lib name args sub =
    if text_eq name (codes "quit")
    then parse_quit lib args
    else if text_eq name (codes "focus")
    then parse_focus args
    else if text_eq name (codes "exec")
    then parse_exec args
    else if text_eq name (codes "bind")
    then parse_bind lib args sub
    else if text_eq name (codes "close")
    then ok close
    else if text_eq name (codes "workspace")
    then parse_workspace lib args
    else if text_eq name (codes "toggle_floating")
    then ok toggle_floating
    else if text_eq name (codes "move")
    then parse_move lib args
    else if text_eq name (codes "resize")
    then parse_resize lib args
    else if text_eq name (codes "insert_into_column")
    then ok insert_into_column
    else if text_eq name (codes "pop_from_column")
    then ok pop_from_column
    else if text_eq name (codes "config")
    then parse_config lib args
    else if text_eq name (codes "cycle_width")
    then ok cycle_width
    else unexpected (quoted "unknown command '" name "'")

-- `parse_arguments`. The sub-command of a `bind` is what stands behind the name and the keys.
unfoldable pub parse_arguments : Library → List Text → Parsed
parse_arguments lib [] = unexpected (codes "not enough arguments")
parse_arguments lib (name ∷ []) = call_parser lib name [] thrown
parse_arguments lib (name ∷ keys ∷ sub) =
    let command_data = parse_arguments lib sub in call_parser lib name (keys ∷ sub) command_data
