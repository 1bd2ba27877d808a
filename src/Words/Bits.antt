-- ===== src/Words/Bits.antt =====
-- Laws of `^` on machine words of every width, from the recursion on binary digits that the native
-- operation stands for. They serve the checksum.
use Prim.Native.Nat.{differ, digits, bitwise, bit_xor-bitwise}
use native.Mathlib.Nat.{pow-suc}
use lora_messenger.Common.{
  ℕ, zero, suc, ◌+◌, ◌*◌, ◌/◌, ◌%◌, ◌^◌, ◌≤◌, ◌<◌, bit_xor, ◌≡◌, refl, ap, ◌∙◌, arith,
}
use native.Mathlib.Decide.{dec_le}

-- The native recursion for `^`: `n` rounds, one for each binary digit of `a`.
abbrev rounds : ℕ → ℕ → ℕ → ℕ
rounds = digits (λ (y : ℕ). y) differ

-- A round more than the first word needs changes nothing.
spare_round : (n a b : ℕ) → a ≤ n → rounds (suc n) a b ≡ rounds n a b
spare_round zero zero b h = refl
spare_round (suc n) zero b h = refl
spare_round zero (suc a) b h = absurd (omega arith)
spare_round (suc n) (suc a) b h =
    ap (λ (upper : ℕ). upper * 2 + differ (suc a % 2) (b % 2))
      (spare_round n (suc a / 2) (b / 2) (omega arith))

spare_rounds : (n a b : ℕ) → a ≤ n → rounds n a b ≡ rounds a a b
spare_rounds n a b h = elim (dec_le n a) [
  | yes few ↦ let same : n ≡ a = omega arith in rw same refl
  | no more ↦ fewer n more
]
  where
    fewer : (n : ℕ) → ¬ (n ≤ a) → rounds n a b ≡ rounds a a b
    fewer zero more = absurd (more (omega arith))
    fewer (suc n) more = elim (dec_le n a) [
      | yes last ↦ let same : n ≡ a = omega arith in rw same (spare_round a a b (omega arith))
      | no still ↦ spare_round n a b (omega arith) ∙ fewer n still
    ]

bitwise-suc :
    (a b : ℕ)
    → bitwise (λ (y : ℕ). y) differ (suc a) b
      ≡ bitwise (λ (y : ℕ). y) differ (suc a / 2) (b / 2) * 2 + differ (suc a % 2) (b % 2)
bitwise-suc a b =
    ap (λ (upper : ℕ). upper * 2 + differ (suc a % 2) (b % 2))
      (spare_rounds a (suc a / 2) (b / 2) (omega arith))

differ_digits : (a b : ℕ) → a < 2 → b < 2 → differ a b ≡ (a + b) % 2
differ_digits zero zero h k = refl
differ_digits zero (suc zero) h k = refl
differ_digits zero (suc (suc b)) h k = absurd (omega arith)
differ_digits (suc zero) zero h k = refl
differ_digits (suc zero) (suc zero) h k = refl
differ_digits (suc zero) (suc (suc b)) h k = absurd (omega arith)
differ_digits (suc (suc a)) b h k = absurd (omega arith)

zero-bit_xor : (b : ℕ) → bit_xor 0 b ≡ b
zero-bit_xor b = bit_xor-bitwise 0 b

pub bit_xor_step : (a b : ℕ) → bit_xor a b ≡ bit_xor (a / 2) (b / 2) * 2 + (a % 2 + b % 2) % 2
bit_xor_step zero b = omega (arith, zero-bit_xor b, zero-bit_xor (b / 2))
bit_xor_step (suc a) b = omega (
  arith,
  bit_xor-bitwise (suc a) b,
  bit_xor-bitwise (suc a / 2) (b / 2),
  bitwise-suc a b,
  differ_digits (suc a % 2) (b % 2) (omega arith) (omega arith),
)

-- The result of `^` on words of `k` bits is a word of `k` bits.
pub bit_xor-lt : (k a b : ℕ) → a < 2 ^ k → b < 2 ^ k → bit_xor a b < 2 ^ k
bit_xor-lt zero a b h g = rw (bit_xor_zeros a b (omega arith) (omega arith)) (omega arith)
  where
    bit_xor_zeros : (x y : ℕ) → x ≡ 0 → y ≡ 0 → bit_xor x y ≡ 0
    bit_xor_zeros x y p q = rw (p, q)
bit_xor-lt (suc k) a b h g = omega (
  arith,
  bit_xor_step a b,
  pow-suc 2 k,
  bit_xor-lt k (a / 2) (b / 2) (omega (arith, pow-suc 2 k)) (omega (arith, pow-suc 2 k)),
)

-- `^` by a fixed word is injective.
pub bit_xor_cancel : (k a b c : ℕ) → a < 2 ^ k → b < 2 ^ k → bit_xor a c ≡ bit_xor b c → a ≡ b
bit_xor_cancel zero a b c h g e = omega arith
bit_xor_cancel (suc k) a b c h g e = omega (
  arith,
  e,
  bit_xor_step a c,
  bit_xor_step b c,
  bit_xor_cancel k (a / 2) (b / 2) (c / 2) (omega (arith, pow-suc 2 k)) (omega (arith, pow-suc 2 k))
      (omega (arith, bit_xor_step a c, bit_xor_step b c)),
)

pub bit_xor_cancel_left : (k a b c : ℕ) → a < 2 ^ k → b < 2 ^ k → bit_xor c a ≡ bit_xor c b → a ≡ b
bit_xor_cancel_left zero a b c h g e = omega arith
bit_xor_cancel_left (suc k) a b c h g e = omega (
  arith,
  e,
  bit_xor_step c a,
  bit_xor_step c b,
  bit_xor_cancel_left k (a / 2) (b / 2) (c / 2) (omega (arith, pow-suc 2 k))
      (omega (arith, pow-suc 2 k)) (omega (arith, bit_xor_step c a, bit_xor_step c b)),
)

-- A word with its top bit set, `^` a word without it, has the top bit set.
pub bit_xor_top : (k a b : ℕ) → a < 2 ^ k → 2 ^ k ≤ b → b < 2 ^ suc k → 2 ^ k ≤ bit_xor a b
bit_xor_top zero a b h g l = omega (arith, bit_xor_step a b, pow-suc 2 zero)
bit_xor_top (suc k) a b h g l = omega (
  arith,
  bit_xor_step a b,
  pow-suc 2 k,
  bit_xor_top k (a / 2) (b / 2) (omega (arith, pow-suc 2 k)) (omega (arith, pow-suc 2 k))
      (omega (arith, pow-suc 2 k, pow-suc 2 (suc k))),
)

pub bit_xor-zero : (k a : ℕ) → a < 2 ^ k → bit_xor a 0 ≡ a
bit_xor-zero zero a h = let e : a ≡ 0 = omega arith in rw e
bit_xor-zero (suc k) a h =
    ground (arith, bit_xor_step a 0, bit_xor-zero k (a / 2) (omega (arith, pow-suc 2 k)))
