-- ===== src/Cutter/Print.antt =====
-- How each command is written on the command line, and that cutter/parse_arguments.h reads it so.
use cardboard.Base.{◌≡◌, refl, ap, ◌∙◌, true, false, some, List, [], ◌∷◌, ◌++◌, arith, length, map}
use cardboard.Base.Int.{ℤ, pos}
use cardboard.Base.Text.{Text, codes}
use cardboard.Protocol.{
  Direction, left, right, up, down, switch_to, move_to, mouse_mod, gap, focus_color, CommandData,
  quit, focus, exec, bind, close, workspace, toggle_floating, move, resize, insert_into_column,
  pop_from_column, config, cycle_width,
}
use cardboard.Cutter.{
  Library, ok, channel, find_mod_key, parse_arguments, parse_quit, parse_focus, parse_config,
  parse_config_gap, parse_config_focus_color, parse_config_mouse_mod, parse_bind, parse_workspace,
  parse_move, parse_resize, call_parser, to_mouse_mod, bind_loop,
}
use cardboard.Cutter.Tokens.{
  join_plus, AreWords, AreModifiers, split_plus-join_plus, all_modifiers-AreModifiers,
  key_of-AreModifiers, bind_loop-split_plus, mouse_mod_loop-split_plus, all_modifiers, modifiers_of,
  key_of,
}

abbrev name_of : Direction → Text
name_of left = codes "left"
name_of right = codes "right"
name_of up = codes "up"
name_of down = codes "down"

-- `Spells lib words c`: `words` is a way to write the command `c`.
pub data Spells (lib : Library) : List Text → CommandData → Type 0 where
  quit_zero : Spells lib (codes "quit" ∷ []) (quit (pos 0))
  quit_code :
      (t : Text) (n : ℤ) → lib.read_int t ≡ some n → Spells lib (codes "quit" ∷ t ∷ []) (quit n)
  focus_on : (d : Direction) → Spells lib (codes "focus" ∷ name_of d ∷ []) (focus d false)
  focus_cycle : Spells lib (codes "focus" ∷ codes "cycle" ∷ []) (focus left true)
  run : (argv : List Text) → Spells lib (codes "exec" ∷ argv) (exec argv)
  bind_keys :
      (modifiers : List Text) (key : Text) (sub : List Text) (c : CommandData)
      → AreModifiers modifiers
      → find_mod_key key ≡ false
      → AreWords (modifiers ++ key ∷ [])
      → Spells lib sub c
      → Spells lib
          (codes "bind" ∷ join_plus (modifiers ++ key ∷ []) ∷ sub)
          (bind modifiers (map lib.to_lower key) c)
  close_view : Spells lib (codes "close" ∷ []) close
  switch_workspace :
      (t : Text) (n : ℤ)
      → lib.stoi t ≡ some n
      → Spells lib (codes "workspace" ∷ codes "switch" ∷ t ∷ []) (workspace (switch_to n))
  move_workspace :
      (t : Text) (n : ℤ)
      → lib.stoi t ≡ some n
      → Spells lib (codes "workspace" ∷ codes "move" ∷ t ∷ []) (workspace (move_to n))
  toggle : Spells lib (codes "toggle_floating" ∷ []) toggle_floating
  move_x :
      (t : Text) (dx : ℤ)
      → lib.stoi t ≡ some dx
      → Spells lib (codes "move" ∷ t ∷ []) (move dx (pos 0))
  move_xy :
      (t u : Text) (dx dy : ℤ)
      → lib.stoi t ≡ some dx
      → lib.stoi u ≡ some dy
      → Spells lib (codes "move" ∷ t ∷ u ∷ []) (move dx dy)
  resize_to :
      (t u : Text) (width height : ℤ)
      → lib.stoi t ≡ some width
      → lib.stoi u ≡ some height
      → Spells lib (codes "resize" ∷ t ∷ u ∷ []) (resize width height)
  insert : Spells lib (codes "insert_into_column" ∷ []) insert_into_column
  pop : Spells lib (codes "pop_from_column" ∷ []) pop_from_column
  set_mouse_mod :
      (modifiers : List Text)
      → AreModifiers modifiers
      → AreWords modifiers
      → Spells lib
          (codes "config" ∷ codes "mouse_mod" ∷ join_plus modifiers ∷ [])
          (config (mouse_mod modifiers))
  set_gap :
      (t : Text) (n : ℤ)
      → lib.stoi t ≡ some n
      → Spells lib (codes "config" ∷ codes "gap" ∷ t ∷ []) (config (gap n))
  set_focus_color :
      (t u v w : Text) (r g b a : ℤ)
      → lib.stoi t ≡ some r
      → lib.stoi u ≡ some g
      → lib.stoi v ≡ some b
      → lib.stoi w ≡ some a
      → Spells lib
          (codes "config" ∷ codes "focus_color" ∷ t ∷ u ∷ v ∷ w ∷ [])
          (config (focus_color (channel lib r) (channel lib g) (channel lib b) (channel lib a)))
  cycle : Spells lib (codes "cycle_width" ∷ []) cycle_width

keys_lem :
    (lib : Library) (modifiers : List Text) (key : Text)
    → AreModifiers modifiers
    → find_mod_key key ≡ false
    → AreWords (modifiers ++ key ∷ [])
    → bind_loop lib
        (length (join_plus (modifiers ++ key ∷ [])))
        []
        []
        (join_plus (modifiers ++ key ∷ []))
      ≡ (modifiers, map lib.to_lower key)
keys_lem lib modifiers key mods is_key words =
    let (same, found) = key_of-AreModifiers lib [] key modifiers mods is_key in
    bind_loop-split_plus lib (length (join_plus (modifiers ++ key ∷ []))) [] []
      (join_plus (modifiers ++ key ∷ [])) (omega arith)
    ∙ ap (λ ts. (modifiers_of ts, key_of lib [] ts))
        (split_plus-join_plus (modifiers ++ key ∷ []) words)
    ∙ ap (λ m. (m, key_of lib [] (modifiers ++ key ∷ []))) same
    ∙ ap (λ k. (modifiers, k)) found

parse_bind-join_plus :
    (lib : Library) (modifiers : List Text) (key : Text) (sub : List Text) (c : CommandData)
    → AreModifiers modifiers
    → find_mod_key key ≡ false
    → AreWords (modifiers ++ key ∷ [])
    → parse_arguments lib sub ≡ ok c
    → parse_bind lib (join_plus (modifiers ++ key ∷ []) ∷ sub) (parse_arguments lib sub)
      ≡ ok (bind modifiers (map lib.to_lower key) c)
unfolding parse_bind parse_arguments
parse_bind-join_plus lib modifiers key [] c mods is_key words spelled = ground arith
parse_bind-join_plus lib modifiers key (u ∷ args) c mods is_key words spelled =
    simp (spelled, keys_lem lib modifiers key mods is_key words)

parse_config_mouse_mod-join_plus :
    (modifiers : List Text)
    → AreModifiers modifiers
    → AreWords modifiers
    → parse_config_mouse_mod (join_plus modifiers ∷ []) ≡ ok (config (mouse_mod modifiers))
unfolding parse_config_mouse_mod
parse_config_mouse_mod-join_plus modifiers mods words = ap to_mouse_mod (
    mouse_mod_loop-split_plus (length (join_plus modifiers)) [] (join_plus modifiers) (omega arith)
    ∙ ap (all_modifiers []) (split_plus-join_plus modifiers words)
    ∙ all_modifiers-AreModifiers [] modifiers mods)

-- Every way to write a command that `Spells` has, bindings of bindings included, is read as that
-- command.
pub parse_arguments-Spells :
    (lib : Library) (words : List Text) (c : CommandData)
    → Spells lib words c
    → parse_arguments lib words ≡ ok c
unfolding parse_arguments call_parser parse_quit parse_focus parse_workspace parse_move parse_resize
    parse_config parse_config_gap parse_config_focus_color
parse_arguments-Spells lib words c quit_zero = refl
parse_arguments-Spells lib words c (quit_code t n e) = simp e
parse_arguments-Spells lib words c (focus_on left) = refl
parse_arguments-Spells lib words c (focus_on right) = refl
parse_arguments-Spells lib words c (focus_on up) = refl
parse_arguments-Spells lib words c (focus_on down) = refl
parse_arguments-Spells lib words c focus_cycle = refl
parse_arguments-Spells lib words c (run []) = refl
parse_arguments-Spells lib words c (run (u ∷ argv)) = refl
parse_arguments-Spells lib words c (bind_keys modifiers key sub c' mods is_key are_words spelled) =
    parse_bind-join_plus lib modifiers key sub c' mods is_key are_words
      (parse_arguments-Spells lib sub c' spelled)
parse_arguments-Spells lib words c close_view = refl
parse_arguments-Spells lib words c (switch_workspace t n e) = simp e
parse_arguments-Spells lib words c (move_workspace t n e) = simp e
parse_arguments-Spells lib words c toggle = refl
parse_arguments-Spells lib words c (move_x t dx e) = simp e
parse_arguments-Spells lib words c (move_xy t u dx dy e f) = simp (e, f)
parse_arguments-Spells lib words c (resize_to t u width height e f) = simp (e, f)
parse_arguments-Spells lib words c insert = refl
parse_arguments-Spells lib words c pop = refl
parse_arguments-Spells lib words c (set_mouse_mod modifiers mods are_words) =
    parse_config_mouse_mod-join_plus modifiers mods are_words
parse_arguments-Spells lib words c (set_gap t n e) = simp e
parse_arguments-Spells lib words c (set_focus_color t u v w r g b a e f h i) = simp (e, f, h, i)
parse_arguments-Spells lib words c cycle = refl
