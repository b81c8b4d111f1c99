-- ===== src/Protocol/Header.antt =====
-- The header of a message: libcardboard/src/ipc.cpp and include/cardboard/ipc.h.
pub mod Wire
use cardboard.Base.{ℕ, ◌+◌, ◌-◌, ◌*◌, ◌/◌, ◌%◌, ◌^◌, ltb, if◌then◌else◌}
use cardboard.Base.Int.{ℤ, pos, negsuc}

-- `std::endian::native`
pub data Endian : Type 0 where
  little big : Endian

-- `AlignedHeaderBuffer`: four bytes, by their addresses.
pub record HeaderBuffer : Type 0 where
  pub b0 : ℕ
  pub b1 : ℕ
  pub b2 : ℕ
  pub b3 : ℕ

-- An `int` as its 32 bits, in two's complement, and back.
abbrev pub to_word : ℤ → ℕ
to_word (pos n) = n % 2 ^ 32
to_word (negsuc n) = 2 ^ 32 - 1 - n % 2 ^ 32

abbrev pub of_word : ℕ → ℤ
of_word w = if ltb w (2 ^ 31) then pos w else negsuc (2 ^ 32 - 1 - w)

-- The word that the machine loads from the buffer, and the buffer that it stores.
abbrev pub load : Endian → HeaderBuffer → ℕ
load little h = h.b0 + h.b1 * 2 ^ 8 + h.b2 * 2 ^ 16 + h.b3 * 2 ^ 24
load big h = h.b3 + h.b2 * 2 ^ 8 + h.b1 * 2 ^ 16 + h.b0 * 2 ^ 24

abbrev pub store : Endian → ℕ → HeaderBuffer
store little w = record {
  b0 = w % 2 ^ 8;
  b1 = w / 2 ^ 8 % 2 ^ 8;
  b2 = w / 2 ^ 16 % 2 ^ 8;
  b3 = w / 2 ^ 24 % 2 ^ 8;
}
store big w = record {
  b0 = w / 2 ^ 24 % 2 ^ 8;
  b1 = w / 2 ^ 16 % 2 ^ 8;
  b2 = w / 2 ^ 8 % 2 ^ 8;
  b3 = w % 2 ^ 8;
}

-- The reversal of the bytes of a word. Each mask keeps one byte and the shifted bytes do not
-- overlap, so `&` with `>>` is a division and a remainder, and `|` is a sum.
abbrev pub swap_bytes : ℕ → ℕ
swap_bytes r =
    r % 2 ^ 8 * 2 ^ 24
    + r / 2 ^ 8 % 2 ^ 8 * 2 ^ 16
    + r / 2 ^ 16 % 2 ^ 8 * 2 ^ 8
    + r / 2 ^ 24 % 2 ^ 8

-- `interpret_header`
unfoldable pub interpret_header : Endian → HeaderBuffer → ℤ
interpret_header little h = of_word (load little h)
interpret_header big h = of_word (swap_bytes (load big h))

-- `create_header_buffer`: the big-endian machine stores the word, loads it, swaps and stores again.
unfoldable pub create_header_buffer : Endian → ℤ → HeaderBuffer
create_header_buffer little n = store little (to_word n)
create_header_buffer big n = store big (swap_bytes (load big (store big (to_word n))))
