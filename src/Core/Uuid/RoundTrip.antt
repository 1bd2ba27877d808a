-- ===== src/Core/Uuid/RoundTrip.antt =====
-- `Uuid::parse` reads back what `Uuid::to_string` writes.
use native.Mathlib.Nat.{mod-eq_of_lt}
use lora_messenger.Common.{
  ℕ, zero, suc, ◌+◌, ◌*◌, ◌/◌, ◌%◌, ◌<◌, ◌≡◌, refl, Bool, true, ◌&&◌, Option, some, List, [], ◌∷◌,
  replicate, length, get_or, All, ◌==◌, nat_eq, option_eq, option_beq_iff, arith, ap, ap₂, ◌∙◌, sym,
}
use lora_messenger.Common.Tests.{option_beq}
use lora_messenger.Words.Network.{IsByte}
use lora_messenger.Core.Uuid.{Uuid, IsUuid}
use lora_messenger.Core.Uuid.Form.{
  hex_value, hex_digit, with_nibble, read_nibble, parse_loop, parse, parsed, to_string_loop,
  to_string,
}

all_below : (ℕ → Bool) → ℕ → Bool
all_below test zero = true
all_below test (suc n) = test n && all_below test n

all_below-true : (test : ℕ → Bool) (n i : ℕ) → all_below test n ≡ true → i < n → test i ≡ true
unfolding all_below
all_below-true test zero i e h = absurd (omega arith)
all_below-true test (suc n) i e h = grind (arith, all_below-true test n i)

is_read_back : ℕ → Bool
is_read_back n = hex_value (hex_digit n) == some n

hex_value-hex_digit : (x : ℕ) → hex_value (hex_digit (x % 16)) ≡ some (x % 16)
unfolding is_read_back all_below hex_value hex_digit option_beq
hex_value-hex_digit x =
    (option_beq_iff (hex_value (hex_digit (x % 16))) (some (x % 16))).0
      (all_below-true is_read_back 16 (x % 16) refl (omega arith))

byte_halves : (x : ℕ) → (x / 16 % 16 * 16 % 256 + x % 16) % 256 ≡ x % 256
byte_halves x = omega arith

tabulate : ℕ → (ℕ → ℕ) → List ℕ
tabulate zero f = []
tabulate (suc n) f = f 0 ∷ tabulate n (λ i. f (suc i))

tabulate-get_or : (xs : List ℕ) → tabulate (length xs) (λ i. get_or xs i 0) ≡ xs
unfolding tabulate
tabulate-get_or [] = refl
tabulate-get_or (x ∷ xs) = ap (◌∷◌ x) (tabulate-get_or xs)

tabulate_bytes :
    (bs : List ℕ) → All IsByte bs → tabulate (length bs) (λ i. get_or bs i 0 % 256) ≡ bs
unfolding tabulate
tabulate_bytes [] h = refl
tabulate_bytes (b ∷ bs) h =
    ap₂ (λ (x : ℕ) (xs : List ℕ). x ∷ xs) (mod-eq_of_lt h.0) (tabulate_bytes bs h.1)

read_nibble-hex_digit :
    (x : ℕ) {A : Type 0} (next : ℕ → Option A)
    → read_nibble (hex_value (hex_digit (x % 16))) next ≡ next (x % 16)
unfolding read_nibble
read_nibble-hex_digit x next = ap (λ (o : Option ℕ). read_nibble o next) (hex_value-hex_digit x)

parse_loop-tabulate :
    (f : ℕ → ℕ)
    → parse_loop (to_string_loop (tabulate 16 f) 0) 0 (replicate 16 0) 0
      ≡ some (tabulate 16 (λ i. f i % 256), 32)
unfolding parse_loop to_string_loop with_nibble tabulate
parse_loop-tabulate f = simp (read_nibble-hex_digit, byte_halves) refl

parse-tabulate :
    (f : ℕ → ℕ)
    → parse (to_string (record { bytes = tabulate 16 f }))
      ≡ some (record { bytes = tabulate 16 (λ i. f i % 256) })
unfolding parse to_string to_string_loop tabulate parsed
parse-tabulate f = ap parsed (parse_loop-tabulate f)

-- The text that `to_string` writes of 16 bytes is read back by `parse`.
pub parse-to_string : (u : Uuid) → IsUuid u → parse (to_string u) ≡ some u
parse-to_string u ok =
    let f : ℕ → ℕ = λ i. get_or u.bytes i 0 in
    let same : tabulate 16 f ≡ u.bytes =
      ap (λ (n : ℕ). tabulate n f) (sym ok.size) ∙ tabulate-get_or u.bytes in
    let bytes : tabulate 16 (λ i. f i % 256) ≡ u.bytes =
      ap (λ (n : ℕ). tabulate n (λ i. f i % 256)) (sym ok.size) ∙ tabulate_bytes u.bytes ok.range in
    ap (λ (bs : List ℕ). parse (to_string (record { bytes = bs }))) (sym same)
    ∙ parse-tabulate f
    ∙ ap (λ (bs : List ℕ). some (record { bytes = bs })) bytes
