-- ===== src/Protocol/Reassembler/Bitmap.antt =====
-- The bitmap of received fragments as a set of indices.
use native.Mathlib.Nat.{
  pow-suc, pow-succ', div-div-eq-div-mul, one-le-pow, zero-div, pow-le-pow_right,
}
use lora_messenger.Common.{
  ℕ, zero, suc, ◌+◌, ◌-◌, ◌/◌, ◌%◌, ◌^◌, ◌<◌, ◌≤◌, ◌≡◌, ◌≢◌, refl, ap, sym, ◌∙◌, true, false, ◌==◌,
  nat_eq, arith, inl, inr, Bool-cases,
}
use lora_messenger.Protocol.Reassembler.Slots.{has_fragment, add_fragment, complete_mask}

div-pow_suc : (b i : ℕ) → b / 2 ^ suc i ≡ b / 2 / 2 ^ i
div-pow_suc b i = ap (λ (m : ℕ). b / m) (pow-succ' 2 i) ∙ sym (div-div-eq-div-mul b 2 (2 ^ i))

has_fragment-suc : (b i : ℕ) → has_fragment b (suc i) ≡ has_fragment (b / 2) i
unfolding has_fragment
has_fragment-suc b i = rw (div-pow_suc b i) refl

has_fragment-zero : (b : ℕ) → has_fragment b 0 ≡ (b % 2 == 1)
unfolding has_fragment
has_fragment-zero b = let e : b / 2 ^ 0 ≡ b = omega arith in rw e refl

-- Setting a clear bit neither overflows nor touches another bit.
add-lt : (k b i : ℕ) → b < 2 ^ k → i < k → has_fragment b i ≡ false → b + 2 ^ i < 2 ^ k
add-lt zero b i h l e = absurd (omega arith)
add-lt (suc k) b zero h l e = ground (arith, e, has_fragment-zero b, pow-suc 2 k)
add-lt (suc k) b (suc i) h l e = omega (
  arith,
  pow-suc 2 k,
  pow-suc 2 i,
  add-lt k (b / 2) i (omega (arith, pow-suc 2 k)) (omega arith) (sym (has_fragment-suc b i) ∙ e),
)

has_fragment-add_same : (b i : ℕ) → has_fragment b i ≡ false → has_fragment (b + 2 ^ i) i ≡ true
has_fragment-add_same b zero e = ground (arith, e, has_fragment-zero b, has_fragment-zero (b + 1))
has_fragment-add_same b (suc i) e =
    let half : (b + 2 ^ suc i) / 2 ≡ b / 2 + 2 ^ i = omega (arith, pow-suc 2 i) in
    has_fragment-suc (b + 2 ^ suc i) i
    ∙ rw half (has_fragment-add_same (b / 2) i (sym (has_fragment-suc b i) ∙ e))

has_fragment-add_other :
    (b i j : ℕ) → has_fragment b i ≡ false → i ≢ j → has_fragment (b + 2 ^ i) j ≡ has_fragment b j
has_fragment-add_other b zero zero e h = absurd (h refl)
has_fragment-add_other b zero (suc j) e h =
    let half : (b + 2 ^ 0) / 2 ≡ b / 2 = ground (arith, e, has_fragment-zero b) in
    has_fragment-suc (b + 2 ^ 0) j ∙ rw half (sym (has_fragment-suc b j))
has_fragment-add_other b (suc i) zero e h =
    ground (arith, has_fragment-zero b, has_fragment-zero (b + 2 ^ suc i), pow-suc 2 i)
has_fragment-add_other b (suc i) (suc j) e h =
    let half : (b + 2 ^ suc i) / 2 ≡ b / 2 + 2 ^ i = omega (arith, pow-suc 2 i) in
    has_fragment-suc (b + 2 ^ suc i) j
    ∙ rw half
        (has_fragment-add_other (b / 2) i j (sym (has_fragment-suc b i) ∙ e) (λ p. h (ap suc p)))
    ∙ sym (has_fragment-suc b j)

-- What `add_fragment` does to a bitmap of at most 16 bits.
pub record Added (n b i : ℕ) : Type 0 where
  pub small : add_fragment b i < 2 ^ n
  pub has_it : has_fragment (add_fragment b i) i ≡ true
  pub others : (j : ℕ) → i ≢ j → has_fragment (add_fragment b i) j ≡ has_fragment b j

pub add_fragment-Added :
    (n b i : ℕ) → n ≤ 16 → i < n → b < 2 ^ n → has_fragment b i ≡ false → Added n b i
unfolding add_fragment
add_fragment-Added n b i k l h e =
    let below = add-lt n b i h l e in
    let word : 2 ^ n ≤ 2 ^ 16 = pow-le-pow_right (omega arith) k in
    let same : (b + 2 ^ i) % 2 ^ 16 ≡ b + 2 ^ i = omega (arith, word, below) in
    record {
      small = rw same below;
      has_it = rw same (has_fragment-add_same b i e);
      others = λ j other. rw same (has_fragment-add_other b i j e other);
    }

all_ones : (n b : ℕ) → b < 2 ^ n → ((i : ℕ) → i < n → has_fragment b i ≡ true) → b ≡ 2 ^ n - 1
all_ones zero b h all = omega arith
all_ones (suc n) b h all =
    let rest =
      all_ones n (b / 2) (omega (arith, pow-suc 2 n))
        (λ i l. sym (has_fragment-suc b i) ∙ all (suc i) (omega arith)) in
    ground (
      arith,
      rest,
      all 0 (omega arith),
      has_fragment-zero b,
      pow-suc 2 n,
      one-le-pow n 2 (omega arith),
    )

ones : (n i : ℕ) → i < n → has_fragment (2 ^ n - 1) i ≡ true
ones zero i l = absurd (omega arith)
ones (suc n) zero l =
    ground (arith, has_fragment-zero (2 ^ suc n - 1), pow-suc 2 n, one-le-pow n 2 (omega arith))
ones (suc n) (suc i) l =
    let half : (2 ^ suc n - 1) / 2 ≡ 2 ^ n - 1 = omega (arith, pow-suc 2 n) in
    has_fragment-suc (2 ^ suc n - 1) i ∙ rw half (ones n i (omega arith))

pub complete_mask-ones : (n : ℕ) → n ≤ 16 → complete_mask n ≡ 2 ^ n - 1
unfolding complete_mask
complete_mask-ones n h =
    let word : 2 ^ n ≤ 2 ^ 16 = pow-le-pow_right (omega arith) h in
    elim (Bool-cases (n == 16)) [
      | inl e ↦ let full : n ≡ 16 = ground (arith, e) in rw full refl
      | inr e ↦ rw e (omega (arith, word, one-le-pow n 2 (omega arith)))
    ]

-- The bitmap is the complete mask exactly if every fragment is in it.
pub complete_mask-all :
    (n b : ℕ)
    → n ≤ 16
    → b < 2 ^ n
    → ((i : ℕ) → i < n → has_fragment b i ≡ true)
    → b ≡ complete_mask n
complete_mask-all n b h k all = all_ones n b k all ∙ sym (complete_mask-ones n h)

pub all-complete_mask : (n b i : ℕ) → n ≤ 16 → b ≡ complete_mask n → i < n → has_fragment b i ≡ true
all-complete_mask n b i h e l = rw (e ∙ complete_mask-ones n h) (ones n i l)

pub no_fragment : (i : ℕ) → has_fragment 0 i ≡ false
unfolding has_fragment
no_fragment i = rw (zero-div (2 ^ i)) refl
