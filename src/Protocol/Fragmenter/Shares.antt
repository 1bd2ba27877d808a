-- ===== src/Protocol/Fragmenter/Shares.antt =====
-- The arithmetic of a fragment's share of a post, in `fragment_post`.

use native.Mathlib.Decide.{dec_le}
use lora_messenger.Common.{
  ℕ, ◌+◌, ◌-◌, ◌*◌, ◌<◌, ◌≤◌, ◌≡◌, ap, min, Bool-cases, inl, inr, tests, ltb, nat_eq, arith,
}
use lora_messenger.Protocol.FrameCodec.{expected_count, expected_payload_size}
use lora_messenger.Protocol.FrameCodec.Counts.{total-le-capacity, capacity-lt-total}

enough : (c m : ℕ) → 20 ≤ c → 16 ≤ m → 320 ≤ c * m
enough c m h k = grind arith

-- At the smallest transport size, 16 fragments hold the largest post.
sixteen : (n total c : ℕ) → 20 ≤ c → total ≤ 316 → c * (n - 1) < total → n ≤ 16
sixteen n total c h k below = elim (dec_le n 16) [
  | yes le ↦ le
  | no more ↦ absurd (omega (arith, enough c (n - 1) h (omega arith), below))
]

pub count-le : (total c : ℕ) → 20 ≤ c → 0 < total → total ≤ 316 → expected_count total c ≤ 16
count-le total c h l k =
    sixteen (expected_count total c) total c h k (capacity-lt-total total c (omega arith) l)

pub count-pos : (total c : ℕ) → 20 ≤ c → 46 ≤ total → 0 < expected_count total c
count-pos total c h k = grind (arith, total-le-capacity total c)

before_last : (c n index : ℕ) → index + 1 < n → index * c + c ≤ c * (n - 1)
before_last c n index h = grind arith

at_last : (c n index : ℕ) → index < n → n ≤ index + 1 → index * c ≡ c * (n - 1)
at_last c n index h k = let e : n - 1 ≡ index = omega arith in rw e (omega arith)

-- The same for any number of fragments that just suffices.
pub share_of :
    (total c n index : ℕ)
    → 0 < c
    → total ≤ c * n
    → c * (n - 1) < total
    → index < n
    → (min c (total - index * c) ≡ expected_payload_size index n total c)
      × (0 < min c (total - index * c))
      × (index * c + min c (total - index * c) ≤ total)
unfolding expected_payload_size
share_of total c n index h upper lower l = elim (Bool-cases (ltb (index + 1) n)) [
  | inl e ↦
      let p = before_last c n index (omega tests) in
      rw e (omega (arith, p), omega (arith, p), omega (arith, p))
  | inr e ↦
      let p = at_last c n index l (omega tests) in
      let q = whole c n (omega arith) in
      rw e (omega (arith, p, q), omega (arith, p, q), omega (arith, p, q))
]
  where
    whole : (c n : ℕ) → 0 < n → c * n ≡ c * (n - 1) + c
    whole c n h = let e : n ≡ n - 1 + 1 = omega arith in omega (arith, ap (λ (t : ℕ). c * t) e)

-- A fragment's share of the post is what `validate_frame_fields` expects.
pub share :
    (total c index : ℕ)
    → 20 ≤ c
    → 46 ≤ total
    → index < expected_count total c
    → (min c (total - index * c) ≡ expected_payload_size index (expected_count total c) total c)
      × (0 < min c (total - index * c))
      × (index * c + min c (total - index * c) ≤ total)
share total c index h k l =
    share_of total c (expected_count total c) index (omega arith)
      (total-le-capacity total c (omega arith))
      (capacity-lt-total total c (omega arith) (omega arith)) l
