-- ===== src/Cutter/Tokens.antt =====
-- The words between plus signs, and the loops of cutter/parse_arguments.h that take them.
use cardboard.Base.{
  ℕ, zero, suc, ◌≤◌, ◌≡◌, refl, ap, ◌∙◌, sym, Bool, true, false, List, [], ◌∷◌, ◌++◌, ◌==◌, arith,
  length, map, if◌then◌else◌, append_assoc, append-nil,
}
use cardboard.Base.Text.{Text}
use cardboard.Protocol.{CommandData, bind}
use cardboard.Cutter.{
  to_mouse_mod, parse_bind, parse_config_mouse_mod, Library, Result, ok, unexpected, plus, token_of,
  after_plus, next_pos, find_mod_key, mouse_mod_loop, bind_loop, quoted,
}

-- A byte in front of the first token.
abbrev cons_first : ℕ → List Text → List Text
cons_first b [] = (b ∷ []) ∷ []
cons_first b (t ∷ ts) = (b ∷ t) ∷ ts

-- The tokens of a text. One plus at its end starts no token.
abbrev pub split_plus : Text → List Text
split_plus [] = []
split_plus (b ∷ t) = if b == plus then [] ∷ split_plus t else cons_first b (split_plus t)

split_plus_step :
    (b : ℕ) (t : Text)
    → split_plus (b ∷ t) ≡ token_of (b ∷ t) ∷ split_plus (next_pos (after_plus (b ∷ t)))
split_plus_step b [] = ground arith
split_plus_step b (c ∷ t) = ground (arith, split_plus_step c t)

next_pos_shorter : (b : ℕ) (t : Text) → length (next_pos (after_plus (b ∷ t))) ≤ length t
next_pos_shorter b [] = ground arith
next_pos_shorter b (c ∷ t) = ground (arith, next_pos_shorter c t)

-- The modifiers, if each token is one, and the complaint about the first that is none.
abbrev pub all_modifiers : List Text → List Text → Result (List Text)
all_modifiers modifiers [] = ok modifiers
all_modifiers modifiers (t ∷ ts) =
    if find_mod_key t
    then all_modifiers (modifiers ++ t ∷ []) ts
    else unexpected (quoted "token '" t "' is not a modifier")

-- With as much fuel as the text has bytes, the loop over the modifiers reads all tokens.
pub mouse_mod_loop-split_plus :
    (fuel : ℕ) (modifiers : List Text) (t : Text)
    → length t ≤ fuel
    → mouse_mod_loop fuel modifiers t ≡ all_modifiers modifiers (split_plus t)
unfolding mouse_mod_loop
mouse_mod_loop-split_plus zero modifiers [] h = refl
mouse_mod_loop-split_plus zero modifiers (b ∷ t) h = ground arith
mouse_mod_loop-split_plus (suc fuel) modifiers [] h = refl
mouse_mod_loop-split_plus (suc fuel) modifiers (b ∷ t) h =
    ap
      (λ r.
        if find_mod_key (token_of (b ∷ t))
        then r
        else unexpected (quoted "token '" (token_of (b ∷ t)) "' is not a modifier"))
      (mouse_mod_loop-split_plus fuel (modifiers ++ token_of (b ∷ t) ∷ [])
        (next_pos (after_plus (b ∷ t))) (omega (arith, h, next_pos_shorter b t)))
    ∙ ap (all_modifiers modifiers) (sym (split_plus_step b t))

-- The tokens that are modifiers, in order.
abbrev pub modifiers_of : List Text → List Text
modifiers_of [] = []
modifiers_of (t ∷ ts) = if find_mod_key t then t ∷ modifiers_of ts else modifiers_of ts

-- The last token that is no modifier, in lower case, or else what was given.
abbrev pub key_of : Library → Text → List Text → Text
key_of lib key [] = key
key_of lib key (t ∷ ts) = key_of lib (if find_mod_key t then key else map lib.to_lower t) ts

push_token :
    (is_mod : Bool) (modifiers rest : List Text) (token : Text)
    → (if is_mod then modifiers ++ token ∷ [] else modifiers) ++ rest
      ≡ modifiers ++ (if is_mod then token ∷ rest else rest)
push_token true modifiers rest token = append_assoc modifiers (token ∷ []) rest
push_token false modifiers rest token = refl

-- With as much fuel as the text has bytes, the loop over the keys of a binding reads all tokens.
pub bind_loop-split_plus :
    (lib : Library) (fuel : ℕ) (modifiers : List Text) (key t : Text)
    → length t ≤ fuel
    → bind_loop lib fuel modifiers key t
      ≡ (modifiers ++ modifiers_of (split_plus t), key_of lib key (split_plus t))
unfolding bind_loop
bind_loop-split_plus lib zero modifiers key [] h = ap (λ m. (m, key)) (sym (append-nil modifiers))
bind_loop-split_plus lib zero modifiers key (b ∷ t) h = ground arith
bind_loop-split_plus lib (suc fuel) modifiers key [] h =
    ap (λ m. (m, key)) (sym (append-nil modifiers))
bind_loop-split_plus lib (suc fuel) modifiers key (b ∷ t) h =
    bind_loop-split_plus lib fuel
      (if find_mod_key (token_of (b ∷ t)) then modifiers ++ token_of (b ∷ t) ∷ [] else modifiers)
      (if find_mod_key (token_of (b ∷ t)) then key else map lib.to_lower (token_of (b ∷ t)))
      (next_pos (after_plus (b ∷ t))) (omega (arith, h, next_pos_shorter b t))
    ∙ ap (λ m. (m, key_of lib key (token_of (b ∷ t) ∷ split_plus (next_pos (after_plus (b ∷ t))))))
        (push_token (find_mod_key (token_of (b ∷ t))) modifiers
          (modifiers_of (split_plus (next_pos (after_plus (b ∷ t))))) (token_of (b ∷ t)))
    ∙ ap (λ ts. (modifiers ++ modifiers_of ts, key_of lib key ts)) (sym (split_plus_step b t))

-- Words joined by single plus signs.
abbrev pub join_plus : List Text → Text
join_plus [] = []
join_plus (t ∷ []) = t
join_plus (t ∷ u ∷ ts) = t ++ plus ∷ join_plus (u ∷ ts)

-- No byte of the word is a plus.
pub data HasNoPlus : Text → Type 0 where
  nothing : HasNoPlus []
  byte : {b : ℕ} {t : Text} → (b == plus) ≡ false → HasNoPlus t → HasNoPlus (b ∷ t)

-- Words that are not empty and have no plus.
pub data AreWords : List Text → Type 0 where
  no_words : AreWords []
  word :
      {b : ℕ} {t : Text} {ts : List Text}
      → HasNoPlus (b ∷ t)
      → AreWords ts
      → AreWords ((b ∷ t) ∷ ts)

split_word : (b : ℕ) (t : Text) → HasNoPlus (b ∷ t) → split_plus (b ∷ t) ≡ (b ∷ t) ∷ []
split_word b [] (byte no_plus rest) = ground arith
split_word b (c ∷ t) (byte no_plus rest) = ground (arith, split_word c t rest)

split_first : (t rest : Text) → HasNoPlus t → split_plus (t ++ plus ∷ rest) ≡ t ∷ split_plus rest
split_first [] rest nothing = ground arith
split_first (b ∷ t) rest (byte no_plus more) = ground (arith, split_first t rest more)

-- Joining words and splitting the text again gives the words.
pub split_plus-join_plus : (ts : List Text) → AreWords ts → split_plus (join_plus ts) ≡ ts
split_plus-join_plus [] no_words = refl
split_plus-join_plus ([] ∷ ts) h = elim h [ ]
split_plus-join_plus ((b ∷ t) ∷ []) (word no_plus rest) = split_word b t no_plus
split_plus-join_plus ((b ∷ t) ∷ u ∷ ts) (word no_plus rest) =
    split_first (b ∷ t) (join_plus (u ∷ ts)) no_plus
    ∙ ap (◌∷◌ (b ∷ t)) (split_plus-join_plus (u ∷ ts) rest)

pub data AreModifiers : List Text → Type 0 where
  no_modifiers : AreModifiers []
  modifier :
      {t : Text} {ts : List Text} → find_mod_key t ≡ true → AreModifiers ts → AreModifiers (t ∷ ts)

pub all_modifiers-AreModifiers :
    (done ts : List Text) → AreModifiers ts → all_modifiers done ts ≡ ok (done ++ ts)
all_modifiers-AreModifiers done [] no_modifiers = ap ok (sym (append-nil done))
all_modifiers-AreModifiers done (t ∷ ts) (modifier is_mod rest) =
    ap
      (λ m.
        if m
        then all_modifiers (done ++ t ∷ []) ts
        else unexpected (quoted "token '" t "' is not a modifier"))
      is_mod
    ∙ all_modifiers-AreModifiers (done ++ t ∷ []) ts rest
    ∙ ap ok (append_assoc done (t ∷ []) ts)

-- What the loop of a binding makes of modifiers with a key behind them.
pub key_of-AreModifiers :
    (lib : Library) (start key : Text) (ts : List Text)
    → AreModifiers ts
    → find_mod_key key ≡ false
    → (modifiers_of (ts ++ key ∷ []) ≡ ts)
      × (key_of lib start (ts ++ key ∷ []) ≡ map lib.to_lower key)
key_of-AreModifiers lib start key [] no_modifiers is_key = (simp is_key, simp is_key)
key_of-AreModifiers lib start key (t ∷ ts) (modifier is_mod rest) is_key =
    let (same, found) = key_of-AreModifiers lib start key ts rest is_key in
    (
      simp (is_mod, same),
      ap (λ m. key_of lib (if m then start else map lib.to_lower t) (ts ++ key ∷ [])) is_mod
          ∙ found,
    )

-- A binding gets the tokens of its first word: the modifiers in their order, and as key the last
-- token that is no modifier, in lower case. Its command is the sub-command.
pub parse_bind-split_plus :
    (lib : Library) (t u : Text) (args : List Text) (c : CommandData)
    → parse_bind lib (t ∷ u ∷ args) (ok c)
      ≡ ok (bind (modifiers_of (split_plus t)) (key_of lib [] (split_plus t)) c)
unfolding parse_bind
parse_bind-split_plus lib t u args c =
    ap (λ (modifiers, key). ok (bind modifiers key c))
      (bind_loop-split_plus lib (length t) [] [] t (omega arith))

-- The mouse modifiers are the tokens of the word, if each is a modifier; else the first that is none
-- is the error.
pub parse_config_mouse_mod-split_plus :
    (t : Text) → parse_config_mouse_mod (t ∷ []) ≡ to_mouse_mod (all_modifiers [] (split_plus t))
unfolding parse_config_mouse_mod
parse_config_mouse_mod-split_plus t =
    ap to_mouse_mod (mouse_mod_loop-split_plus (length t) [] t (omega arith))
