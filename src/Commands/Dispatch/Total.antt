-- ===== src/Commands/Dispatch/Total.antt =====
-- Between cutter and the compositor: `parse_arguments` of cutter/parse_arguments.h makes only
-- commands that `dispatch_command` of cardboard/commands/dispatch_command.cpp takes.
use Prim.Native.Nat.{bit_or}
use cardboard.Base.{
  ℕ, zero, suc, ◌≡◌, refl, sym, Bool, true, false, Option, none, some, List, [], ◌∷◌, ◌++◌,
  if◌then◌else◌, any, arith, length, Bool-cases, inl, inr, subst,
}
use cardboard.Base.Int.{ℤ}
use cardboard.Base.Text.{Text, text_eq}
use cardboard.Protocol
use cardboard.Protocol.{CommandData}
use cardboard.Seat.{and_then}
use cardboard.Cutter.{
  Library, Result, Parsed, ok, unexpected, thrown, with_int, find_mod_key, mouse_mod_loop,
  to_mouse_mod, bind_loop, token_of, after_plus, next_pos, parse_config_mouse_mod, parse_quit,
  parse_focus, parse_config_gap, parse_config_focus_color, parse_bind, parse_workspace, parse_move,
  parse_resize, parse_config, call_parser, parse_arguments,
}
use cardboard.Commands.{Command, bind, invalid_keysym, config_mouse_mod}
use cardboard.Commands.Dispatch.{
  bind_key, find_mod, mod_table, mask_from, modifier_array_to_mask, dispatch_command,
}

-- Each name is one that cutter takes for a modifier.
abbrev AreModifiers : List Text → Type 0
AreModifiers [] = Unit {0}
AreModifiers (t ∷ ts) = (find_mod_key t ≡ true) × AreModifiers ts

-- So is each name in the command and in the commands that it binds.
abbrev IsKnown : CommandData → Type 0
IsKnown (Protocol.bind modifiers key command) = AreModifiers modifiers × IsKnown command
IsKnown (Protocol.config (Protocol.mouse_mod modifiers)) = AreModifiers modifiers
IsKnown _ = Unit {0}

abbrev Sends : Parsed → Type 0
Sends (ok command) = IsKnown command
Sends (unexpected e) = Unit {0}
Sends thrown = Unit {0}

abbrev SendsModifiers : Result (List Text) → Type 0
SendsModifiers (ok modifiers) = AreModifiers modifiers
SendsModifiers (unexpected e) = Unit {0}
SendsModifiers thrown = Unit {0}

Sends-with_int :
    (o : Option ℤ) (next : ℤ → Parsed) → ((n : ℤ) → Sends (next n)) → Sends (with_int o next)
Sends-with_int none next k = tt
Sends-with_int (some n) next k = k n

AreModifiers-append :
    (ms : List Text) (t : Text)
    → AreModifiers ms
    → find_mod_key t ≡ true
    → AreModifiers (ms ++ t ∷ [])
AreModifiers-append [] t h e = (e, tt)
AreModifiers-append (m ∷ ms) t h e = (h.0, AreModifiers-append ms t h.1 e)

mouse_mod_loop-SendsModifiers :
    (fuel : ℕ) (ms : List Text) (t : Text)
    → AreModifiers ms
    → SendsModifiers (mouse_mod_loop fuel ms t)
unfolding mouse_mod_loop
mouse_mod_loop-SendsModifiers zero ms t h = h
mouse_mod_loop-SendsModifiers (suc fuel) ms [] h = h
mouse_mod_loop-SendsModifiers (suc fuel) ms (b ∷ t) h =
    elim (Bool-cases (find_mod_key (token_of (b ∷ t)))) [
      | inl e ↦ rw e (
          mouse_mod_loop-SendsModifiers fuel (ms ++ token_of (b ∷ t) ∷ [])
            (next_pos (after_plus (b ∷ t))) (AreModifiers-append ms (token_of (b ∷ t)) h e))
      | inr e ↦ rw e tt
    ]

bind_loop-AreModifiers :
    (lib : Library) (fuel : ℕ) (ms : List Text) (key t : Text)
    → AreModifiers ms
    → AreModifiers (bind_loop lib fuel ms key t).0
unfolding bind_loop
bind_loop-AreModifiers lib zero ms key t h = h
bind_loop-AreModifiers lib (suc fuel) ms key [] h = h
bind_loop-AreModifiers lib (suc fuel) ms key (b ∷ t) h =
    bind_loop-AreModifiers lib fuel _ _ (next_pos (after_plus (b ∷ t)))
      (pushed (find_mod_key (token_of (b ∷ t))) refl)
  where
    pushed :
        (m : Bool)
        → find_mod_key (token_of (b ∷ t)) ≡ m
        → AreModifiers (if m then ms ++ token_of (b ∷ t) ∷ [] else ms)
    pushed true e = AreModifiers-append ms (token_of (b ∷ t)) h e
    pushed false e = h

parse_config_mouse_mod-Sends : (args : List Text) → Sends (parse_config_mouse_mod args)
unfolding parse_config_mouse_mod
parse_config_mouse_mod-Sends [] = tt
parse_config_mouse_mod-Sends (t ∷ []) =
    wrapped (mouse_mod_loop (length t) [] t) (mouse_mod_loop-SendsModifiers (length t) [] t tt)
  where
    wrapped : (r : Result (List Text)) → SendsModifiers r → Sends (to_mouse_mod r)
    wrapped (ok ms) h = h
    wrapped (unexpected e) h = tt
    wrapped thrown h = tt
parse_config_mouse_mod-Sends (t ∷ u ∷ args) = tt

parse_bind-Sends :
    (lib : Library) (args : List Text) (sub : Parsed) → Sends sub → Sends (parse_bind lib args sub)
unfolding parse_bind
parse_bind-Sends lib [] sub h = tt
parse_bind-Sends lib (t ∷ []) sub h = tt
parse_bind-Sends lib (t ∷ u ∷ args) (ok command) h =
    (bind_loop-AreModifiers lib (length t) [] [] t tt, h)
parse_bind-Sends lib (t ∷ u ∷ args) (unexpected e) h = tt
parse_bind-Sends lib (t ∷ u ∷ args) thrown h = tt

parse_quit-Sends : (lib : Library) (args : List Text) → Sends (parse_quit lib args)
unfolding parse_quit
parse_quit-Sends lib [] = tt
parse_quit-Sends lib (t ∷ args) = ground arith

parse_focus-Sends : (args : List Text) → Sends (parse_focus args)
unfolding parse_focus
parse_focus-Sends [] = tt
parse_focus-Sends (t ∷ args) = ground arith

parse_config_gap-Sends : (lib : Library) (args : List Text) → Sends (parse_config_gap lib args)
unfolding parse_config_gap
parse_config_gap-Sends lib [] = tt
parse_config_gap-Sends lib (t ∷ []) = ground arith
parse_config_gap-Sends lib (t ∷ u ∷ args) = tt

parse_config_focus_color-Sends :
    (lib : Library) (args : List Text) → Sends (parse_config_focus_color lib args)
unfolding parse_config_focus_color
parse_config_focus_color-Sends lib (r ∷ g ∷ b ∷ a ∷ []) = ground arith
parse_config_focus_color-Sends lib [] = tt
parse_config_focus_color-Sends lib (r ∷ []) = tt
parse_config_focus_color-Sends lib (r ∷ g ∷ []) = tt
parse_config_focus_color-Sends lib (r ∷ g ∷ b ∷ []) = tt
parse_config_focus_color-Sends lib (r ∷ g ∷ b ∷ a ∷ t ∷ args) = tt

parse_workspace-Sends : (lib : Library) (args : List Text) → Sends (parse_workspace lib args)
unfolding parse_workspace
parse_workspace-Sends lib [] = tt
parse_workspace-Sends lib (t ∷ []) = ground arith
parse_workspace-Sends lib (t ∷ n ∷ args) = ground arith

parse_move-Sends : (lib : Library) (args : List Text) → Sends (parse_move lib args)
unfolding parse_move
parse_move-Sends lib [] = tt
parse_move-Sends lib (dx ∷ []) = ground arith
parse_move-Sends lib (dx ∷ dy ∷ args) = ground arith

parse_resize-Sends : (lib : Library) (args : List Text) → Sends (parse_resize lib args)
unfolding parse_resize
parse_resize-Sends lib [] = tt
parse_resize-Sends lib (width ∷ []) = tt
parse_resize-Sends lib (width ∷ height ∷ args) = ground arith

parse_config-Sends : (lib : Library) (args : List Text) → Sends (parse_config lib args)
unfolding parse_config
parse_config-Sends lib [] = tt
parse_config-Sends lib (key ∷ args) = ground (
  arith,
  parse_config_mouse_mod-Sends args,
  parse_config_focus_color-Sends lib args,
  parse_config_gap-Sends lib args,
)

call_parser-Sends :
    (lib : Library) (name : Text) (args : List Text) (sub : Parsed)
    → Sends sub
    → Sends (call_parser lib name args sub)
unfolding call_parser
call_parser-Sends lib name args sub h = ground (
  arith,
  parse_quit-Sends lib args,
  parse_focus-Sends args,
  parse_bind-Sends lib args sub h,
  parse_workspace-Sends lib args,
  parse_move-Sends lib args,
  parse_resize-Sends lib args,
  parse_config-Sends lib args,
)

parse_arguments-Sends : (lib : Library) (args : List Text) → Sends (parse_arguments lib args)
unfolding parse_arguments
parse_arguments-Sends lib [] = tt
parse_arguments-Sends lib (name ∷ []) = call_parser-Sends lib name [] thrown tt
parse_arguments-Sends lib (name ∷ keys ∷ sub) =
    call_parser-Sends lib name (keys ∷ sub) (parse_arguments lib sub)
      (parse_arguments-Sends lib sub)

-- A table has a value for each of its names.
keys_of : List (Text × ℕ) → List Text
keys_of [] = []
keys_of ((key, bit) ∷ table) = key ∷ keys_of table

find_mod-there :
    (t : Text) (table : List (Text × ℕ))
    → any (λ k. text_eq k t) (keys_of table) ≡ true
    → (bit : ℕ) × (find_mod t table ≡ some bit)
unfolding keys_of
find_mod-there t [] h = absurd (ground (arith, h))
find_mod-there t ((key, bit) ∷ table) h = elim (Bool-cases (text_eq key t)) [
  | inl e ↦ (bit, rw e)
  | inr e ↦ let (b, there) = find_mod-there t table (ground (arith, h, e)) in (b, rw e there)
]

find_mod-key : (t : Text) → find_mod_key t ≡ true → (bit : ℕ) × (find_mod t mod_table ≡ some bit)
unfolding find_mod_key keys_of
find_mod-key t h = find_mod-there t mod_table h

mask_from-known :
    (mask : ℕ) (names : List Text)
    → AreModifiers names
    → (result : ℕ) × (mask_from mask names ≡ some result)
unfolding mask_from
mask_from-known mask [] h = (mask, refl)
mask_from-known mask (t ∷ ts) h =
    let (bit, there) = find_mod-key t h.0 in
    let (result, e) = mask_from-known (bit_or mask bit) ts h.1 in (result, rw there e)

binds-known :
    (keysym : Text → Option ℕ) (key : Text) (mask : Option ℕ) (inner : Option Command) (m : ℕ)
    (c : Command)
    → mask ≡ some m
    → inner ≡ some c
    → (o : Option ℕ) → (r : Command) × (and_then mask (λ n. bind_key key n o inner) ≡ some r)
binds-known keysym key mask inner m c e f none = (invalid_keysym key, rw e)
binds-known keysym key mask inner m c e f (some sym) = (bind m sym c, rw (e, f))

dispatch_command-known :
    (keysym : Text → Option ℕ) (command : CommandData)
    → IsKnown command
    → (c : Command) × (dispatch_command keysym command ≡ some c)
unfolding dispatch_command
dispatch_command-known keysym (Protocol.bind modifiers key command) h =
    let (m, e) = mask_from-known 0 modifiers h.0 in
    let (c, f) = dispatch_command-known keysym command h.1 in
    binds-known keysym key (modifier_array_to_mask modifiers) (dispatch_command keysym command) m c
      e f (keysym key)
dispatch_command-known keysym (Protocol.config (Protocol.mouse_mod modifiers)) h =
    let (m, e) = mask_from-known 0 modifiers h in (config_mouse_mod m, rw e)
dispatch_command-known keysym (Protocol.config (Protocol.gap n)) h = (_, refl)
dispatch_command-known keysym (Protocol.config (Protocol.focus_color r g b a)) h = (_, refl)
dispatch_command-known keysym (Protocol.quit code) h = (_, refl)
dispatch_command-known keysym (Protocol.focus direction true) h = (_, refl)
dispatch_command-known keysym (Protocol.focus direction false) h = (_, refl)
dispatch_command-known keysym (Protocol.exec argv) h = (_, refl)
dispatch_command-known keysym Protocol.close h = (_, refl)
dispatch_command-known keysym (Protocol.workspace w) h = (_, refl)
dispatch_command-known keysym Protocol.toggle_floating h = (_, refl)
dispatch_command-known keysym (Protocol.move dx dy) h = (_, refl)
dispatch_command-known keysym (Protocol.resize width height) h = (_, refl)
dispatch_command-known keysym Protocol.insert_into_column h = (_, refl)
dispatch_command-known keysym Protocol.pop_from_column h = (_, refl)
dispatch_command-known keysym Protocol.cycle_width h = (_, refl)

-- Each command that cutter makes of its words, whatever the words are and whatever the keys of
-- bindings mean, is one that the compositor takes: dispatch_command returns a closure and throws
-- nothing.
pub dispatch_command-parse_arguments :
    (keysym : Text → Option ℕ) (lib : Library) (args : List Text) (command : CommandData)
    → parse_arguments lib args ≡ ok command
    → (c : Command) × (dispatch_command keysym command ≡ some c)
dispatch_command-parse_arguments keysym lib args command e =
    dispatch_command-known keysym command (subst Sends e (parse_arguments-Sends lib args))
