-- ===== src/Protocol/Header/Wire.antt =====
-- The wire format of the header (libcardboard/src/ipc.cpp).
use cardboard.Base.{ℕ, ◌-◌, ◌/◌, ◌%◌, ◌^◌, ◌<◌, ◌≡◌, arith, ap, refl, sym, ◌∙◌}
use cardboard.Base.Int.{ℤ, pos, negsuc, ◌≤ℤ◌, ◌<ℤ◌}
use cardboard.Protocol.Header.{
  Endian, little, big, load, store, swap_bytes, to_word, of_word, interpret_header,
  create_header_buffer,
}

abbrev pub IsInt32 : ℤ → Type 0
IsInt32 n = (negsuc (2 ^ 31 - 1) ≤ℤ n) × (n <ℤ pos (2 ^ 31))

of_word-to_word : (n : ℤ) → IsInt32 n → of_word (to_word n) ≡ n
of_word-to_word (pos n) h = ground arith
of_word-to_word (negsuc n) h = ground arith

to_word_bound : (n : ℤ) → to_word n < 2 ^ 32
to_word_bound (pos n) = omega arith
to_word_bound (negsuc n) = omega arith

load-store_little : (w : ℕ) → w < 2 ^ 32 → load little (store little w) ≡ w
load-store_little w h = omega arith

load-store_big : (w : ℕ) → w < 2 ^ 32 → load big (store big w) ≡ w
load-store_big w h = omega arith

swap-swap : (w : ℕ) → w < 2 ^ 32 → swap_bytes (swap_bytes w) ≡ w
swap-swap w h = omega arith

abbrev pub IsByte : ℕ → Type 0
IsByte b = b < 2 ^ 8

store-swap : (w : ℕ) → w < 2 ^ 32 → store big (swap_bytes w) ≡ store little w
store-swap w h = ground (arith, byte_of_swap w h)
  where
    byte_of_swap :
        (w : ℕ)
        → w < 2 ^ 32
        → (swap_bytes w / 2 ^ 24 % 2 ^ 8 ≡ w % 2 ^ 8)
          × (swap_bytes w / 2 ^ 16 % 2 ^ 8 ≡ w / 2 ^ 8 % 2 ^ 8)
          × (swap_bytes w / 2 ^ 8 % 2 ^ 8 ≡ w / 2 ^ 16 % 2 ^ 8)
          × (swap_bytes w % 2 ^ 8 ≡ w / 2 ^ 24 % 2 ^ 8)
    byte_of_swap w h = (omega arith, omega arith, omega arith, omega arith)

create_header_buffer_word :
    (e : Endian) (n : ℤ) → create_header_buffer e n ≡ store little (to_word n)
unfolding create_header_buffer
create_header_buffer_word little n = refl
create_header_buffer_word big n =
    ap (λ w. store big (swap_bytes w)) (load-store_big (to_word n) (to_word_bound n))
    ∙ store-swap (to_word n) (to_word_bound n)

swap_bound : (w : ℕ) → w < 2 ^ 32 → swap_bytes w < 2 ^ 32
swap_bound w h = omega arith

interpret_header_word :
    (e : Endian) (w : ℕ) → w < 2 ^ 32 → interpret_header e (store little w) ≡ of_word w
unfolding interpret_header
interpret_header_word little w h = ap of_word (load-store_little w h)
interpret_header_word big w h = ap of_word (
    ap (λ b. swap_bytes (load big b)) (sym (store-swap w h))
    ∙ ap swap_bytes (load-store_big (swap_bytes w) (swap_bound w h))
    ∙ swap-swap w h)

-- What one machine writes as the header, any other reads back, whichever byte order either has;
-- and on the wire the four bytes are the length's, the lowest first.
pub interpret-create_header :
    (writer reader : Endian) (n : ℤ)
    → IsInt32 n
    → (interpret_header reader (create_header_buffer writer n) ≡ n)
      × (create_header_buffer writer n ≡ store little (to_word n))
interpret-create_header writer reader n h = (
  ap (interpret_header reader) (create_header_buffer_word writer n)
      ∙ interpret_header_word reader (to_word n) (to_word_bound n)
      ∙ of_word-to_word n h,
  create_header_buffer_word writer n,
)
