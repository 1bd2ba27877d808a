-- ===== src/Words/Network.antt =====
-- Words as bytes in network order, most significant byte first: `write_uint16/32/64` and
-- `read_uint16/32/64` of src/protocol/frame_codec.cpp, `append_uint64` and `read_uint64` of
-- src/protocol/post_codec.cpp, which differ only in the number of bytes.
use native.Mathlib.Nat.{pow-suc, mod-eq_of_lt, div-div-eq-div-mul, div-eq_of_lt-le, div-eq_of_lt}
use lora_messenger.Common.{
  Bool, true, ◌&&◌, ltb, ℕ, zero, suc, ◌+◌, ◌*◌, ◌/◌, ◌%◌, ◌^◌, ◌≤◌, ◌<◌, ◌≡◌, refl, ap, sym, ◌∙◌,
  List, [], ◌∷◌, length, All, arith,
}

abbrev pub IsByte : ℕ → Type 0
IsByte b = b < 256

-- One byte for each round that is left; a round's shift is 8 bits for each round after it.
unfoldable pub write_uint : ℕ → ℕ → List ℕ
write_uint zero value = []
write_uint (suc n) value = (value / 256 ^ n % 256) ∷ write_uint n value

-- `value = (value << 8) | byte` in a word below `m`: the shift leaves the low 8 bits free, so `|` of
-- a byte adds it.
unfoldable pub read_uint : ℕ → ℕ → List ℕ → ℕ
read_uint m value [] = value
read_uint m value (b ∷ bs) = read_uint m (value * 256 % m + b) bs

pub length-write_uint : (n v : ℕ) → length (write_uint n v) ≡ n
unfolding write_uint
length-write_uint zero v = refl
length-write_uint (suc n) v = ap suc (length-write_uint n v)

pub write_uint-IsByte : (n v : ℕ) → All IsByte (write_uint n v)
unfolding write_uint
write_uint-IsByte zero v = tt
write_uint-IsByte (suc n) v = (omega arith, write_uint-IsByte n v)

-- The number that the bytes stand for, without a word size.
value_of : ℕ → List ℕ → ℕ
value_of acc [] = acc
value_of acc (b ∷ bs) = value_of (acc * 256 + b) bs

mul-pow_suc : (a n : ℕ) → a * 256 ^ suc n ≡ a * 256 * 256 ^ n
mul-pow_suc a n = omega (arith, ap (λ (t : ℕ). a * t) (pow-suc 256 n))

value_of-split : (acc : ℕ) (bs : List ℕ) → value_of acc bs ≡ acc * 256 ^ length bs + value_of 0 bs
unfolding value_of
value_of-split acc [] = omega arith
value_of-split acc (b ∷ bs) =
    ground
      (arith, value_of-split (acc * 256 + b) bs, value_of-split b bs, mul-pow_suc acc (length bs))

digit_lt : (x p r : ℕ) → x < 256 → r < p → x * p + r < p * 256
digit_lt x p r h k = grind arith

value_of-lt : (bs : List ℕ) → All IsByte bs → value_of 0 bs < 256 ^ length bs
unfolding value_of
value_of-lt [] h = omega arith
value_of-lt (b ∷ bs) h =
    rw (value_of-split (0 * 256 + b) bs, pow-suc 256 (length bs))
      (digit_lt (0 * 256 + b) (256 ^ length bs) (value_of 0 bs) (omega arith) (value_of-lt bs h.1))

value_of-ge : (acc : ℕ) (bs : List ℕ) → acc ≤ value_of acc bs
unfolding value_of
value_of-ge acc [] = omega arith
value_of-ge acc (b ∷ bs) = omega (arith, value_of-ge (acc * 256 + b) bs)

-- While the number fits the word, the loop does not wrap.
read_uint-value_of :
    (m acc : ℕ) (bs : List ℕ) → value_of acc bs < m → read_uint m acc bs ≡ value_of acc bs
unfolding read_uint value_of
read_uint-value_of m acc [] h = refl
read_uint-value_of m acc (b ∷ bs) h = ground (
  arith,
  value_of-ge (acc * 256 + b) bs,
  mod-eq_of_lt {n = acc * 256} {m = m},
  read_uint-value_of m (acc * 256 + b) bs,
)

value_of-write_uint : (n v acc : ℕ) → acc ≡ v / 256 ^ n → value_of acc (write_uint n v) ≡ v
unfolding value_of write_uint
value_of-write_uint zero v acc h = omega arith
value_of-write_uint (suc n) v acc h =
    value_of-write_uint n v (acc * 256 + v / 256 ^ n % 256)
      (omega (arith, h, ap (λ (t : ℕ). v / t) (pow-suc 256 n), div-div-eq-div-mul v (256 ^ n) 256))

-- What the bytes add to the number leaves the quotient by their weight as it was.
top_byte : (acc : ℕ) (bs : List ℕ) → All IsByte bs → value_of acc bs / 256 ^ length bs ≡ acc
top_byte acc bs h =
    rw (value_of-split acc bs)
      (div-eq_of_lt-le (256 ^ length bs) (omega arith) (omega (arith, value_of-lt bs h)))

write_uint-value_of :
    (acc : ℕ) (bs : List ℕ) → All IsByte bs → write_uint (length bs) (value_of acc bs) ≡ bs
unfolding value_of write_uint
write_uint-value_of acc [] h = refl
write_uint-value_of acc (b ∷ bs) h =
    ground (arith, write_uint-value_of (acc * 256 + b) bs h.1, top_byte (acc * 256 + b) bs h.1)

-- A word of `n` bytes, written and read again in a word type of that size or a larger one.
pub read_uint-write_uint : (n m v : ℕ) → v < 256 ^ n → v < m → read_uint m 0 (write_uint n v) ≡ v
read_uint-write_uint n m v h fits =
    let whole : value_of 0 (write_uint n v) ≡ v =
      value_of-write_uint n v 0 (sym (div-eq_of_lt h)) in
    read_uint-value_of m 0 (write_uint n v) (rw whole fits) ∙ whole

-- Bytes read as a word that holds them all are written back as they were.
pub write_uint-read_uint :
    (m : ℕ) (bs : List ℕ)
    → All IsByte bs
    → 256 ^ length bs ≤ m
    → write_uint (length bs) (read_uint m 0 bs) ≡ bs
write_uint-read_uint m bs h fits =
    rw (read_uint-value_of m 0 bs (omega (arith, value_of-lt bs h))) (write_uint-value_of 0 bs h)

pub read_uint-lt :
    (m : ℕ) (bs : List ℕ) → All IsByte bs → 256 ^ length bs ≤ m → read_uint m 0 bs < 256 ^ length bs
read_uint-lt m bs h fits =
    rw (read_uint-value_of m 0 bs (omega (arith, value_of-lt bs h))) (value_of-lt bs h)

-- A test for `All IsByte`.
abbrev pub are_bytes : List ℕ → Bool
are_bytes [] = true
are_bytes (b ∷ bs) = ltb b 256 && are_bytes bs

pub are_bytes-IsByte : (bs : List ℕ) → are_bytes bs ≡ true → All IsByte bs
are_bytes-IsByte [] e = tt
are_bytes-IsByte (b ∷ bs) e = (ground (arith, e), are_bytes-IsByte bs (ground (arith, e)))
