-- ===== src/Protocol/FrameCodec/Checksum.antt =====
-- `update_crc` and `crc32_iso_hdlc` of src/protocol/frame_codec.cpp.
use lora_messenger.Common.{
  ℕ, zero, suc, ◌/◌, ◌%◌, ◌^◌, ◌≤◌, ◌<◌, bit_xor, ◌≡◌, refl, ◌⊎◌, [], ◌∷◌, ◌++◌, All, arith,
  if◌then◌else◌, ◌==◌, nat_eq, Bool-cases, inl, inr,
}
use lora_messenger.Words.Bits.{
  bit_xor-lt, bit_xor_cancel, bit_xor_cancel_left, bit_xor_top, bit_xor-zero,
}
use lora_messenger.Words.Network.{IsByte}
use lora_messenger.Protocol.Limits.{Bytes}

abbrev pub polynomial : ℕ
polynomial = 0xedb88320

-- One bit of the inner loop: `mask` is all ones or zero, so `&` with it keeps or drops the polynomial.
unfoldable pub crc_bit : ℕ → ℕ
crc_bit crc = bit_xor (crc / 2) (if crc % 2 == 1 then polynomial else 0)

-- The inner loop, over eight bits.
unfoldable pub crc_rounds : ℕ → ℕ → ℕ
unfolding crc_bit
crc_rounds zero crc = crc
crc_rounds (suc n) crc = crc_rounds n (crc_bit crc)

unfoldable pub crc_byte : ℕ → ℕ → ℕ
unfolding crc_rounds
crc_byte crc b = crc_rounds 8 (bit_xor crc b)

unfoldable pub update_crc : ℕ → Bytes → ℕ
unfolding crc_byte
update_crc crc [] = crc
update_crc crc (b ∷ bs) = update_crc (crc_byte crc b) bs

unfoldable pub crc32_iso_hdlc : Bytes → Bytes → ℕ
unfolding update_crc
crc32_iso_hdlc first second = bit_xor (update_crc (update_crc 0xffffffff first) second) 0xffffffff

abbrev pub IsWord32 : ℕ → Type 0
IsWord32 w = w < 2 ^ 32

crc_bit-IsWord32 : (c : ℕ) → IsWord32 c → IsWord32 (crc_bit c)
unfolding crc_bit
crc_bit-IsWord32 c h = elim (Bool-cases (c % 2 == 1)) [
  | inl e ↦ rw e (bit_xor-lt 32 (c / 2) polynomial (omega arith) (omega arith))
  | inr e ↦ rw e (bit_xor-lt 32 (c / 2) 0 (omega arith) (omega arith))
]

crc_rounds-IsWord32 : (n c : ℕ) → IsWord32 c → IsWord32 (crc_rounds n c)
unfolding crc_rounds
crc_rounds-IsWord32 zero c h = h
crc_rounds-IsWord32 (suc n) c h = crc_rounds-IsWord32 n (crc_bit c) (crc_bit-IsWord32 c h)

crc_byte-IsWord32 : (c b : ℕ) → IsWord32 c → IsByte b → IsWord32 (crc_byte c b)
unfolding crc_byte
crc_byte-IsWord32 c b h k = crc_rounds-IsWord32 8 (bit_xor c b) (bit_xor-lt 32 c b h (omega arith))

pub update_crc-IsWord32 :
    (c : ℕ) (bs : Bytes) → IsWord32 c → All IsByte bs → IsWord32 (update_crc c bs)
unfolding update_crc
update_crc-IsWord32 c [] h k = h
update_crc-IsWord32 c (b ∷ bs) h k =
    update_crc-IsWord32 (crc_byte c b) bs (crc_byte-IsWord32 c b h k.0) k.1

pub crc32_iso_hdlc-IsWord32 :
    (xs ys : Bytes) → All IsByte xs → All IsByte ys → IsWord32 (crc32_iso_hdlc xs ys)
unfolding crc32_iso_hdlc
crc32_iso_hdlc-IsWord32 xs ys h k =
    bit_xor-lt 32 _ 0xffffffff
      (update_crc-IsWord32 _ ys (update_crc-IsWord32 0xffffffff xs (omega arith) h) k) (omega arith)

pub update_crc-append :
    (c : ℕ) (xs ys : Bytes) → update_crc c (xs ++ ys) ≡ update_crc (update_crc c xs) ys
unfolding update_crc
update_crc-append c [] ys = refl
update_crc-append c (x ∷ xs) ys = update_crc-append (crc_byte c x) xs ys

-- A checksum over two buffers is the checksum over their concatenation.
pub crc32_iso_hdlc-append :
    (xs ys zs ws : Bytes) → xs ++ ys ≡ zs ++ ws → crc32_iso_hdlc xs ys ≡ crc32_iso_hdlc zs ws
unfolding crc32_iso_hdlc
crc32_iso_hdlc-append xs ys zs ws e =
    rw (← update_crc-append 0xffffffff xs ys, e, update_crc-append 0xffffffff zs ws)

-- The top bit of the next state is the lowest bit of the last one, so no bit of it is lost.
crc_bit_odd : (c : ℕ) → IsWord32 c → c % 2 ≡ 1 → 2 ^ 31 ≤ crc_bit c
unfolding crc_bit
crc_bit_odd c h e =
    rw e (bit_xor_top 31 (c / 2) polynomial (omega arith) (omega arith) (omega arith))

crc_bit_even : (c : ℕ) → IsWord32 c → c % 2 ≡ 0 → crc_bit c ≡ c / 2
unfolding crc_bit
crc_bit_even c h e = rw e (bit_xor-zero 31 (c / 2) (omega arith))

-- The same bytes but for one position, where the one has `x` and the other `y`.
pub data Differs (x y : ℕ) : Bytes → Bytes → Type 0 where
  here : (back : Bytes) → Differs x y (x ∷ back) (y ∷ back)
  there : (b : ℕ) {xs ys : Bytes} → Differs x y xs ys → Differs x y (b ∷ xs) (b ∷ ys)

crc_bit_halves :
    (c d : ℕ) → IsWord32 c → IsWord32 d → c % 2 ≡ d % 2 → crc_bit c ≡ crc_bit d → c / 2 ≡ d / 2
unfolding crc_bit
crc_bit_halves c d h k p e =
    bit_xor_cancel 31 (c / 2) (d / 2) (if d % 2 == 1 then polynomial else 0) (omega arith)
      (omega arith) (rw p at e)

parity : (c : ℕ) → (c % 2 ≡ 0) ⊎ (c % 2 ≡ 1)
parity c = omega arith

-- The step that shifts a bit out loses nothing of a word.
crc_bit_cancel : (c d : ℕ) → IsWord32 c → IsWord32 d → crc_bit c ≡ crc_bit d → c ≡ d
crc_bit_cancel c d h k e = elim (parity c) [
  | inl p ↦ elim (parity d) [
    | inl q ↦ omega (arith, crc_bit_halves c d h k (omega arith) e)
    | inr q ↦ omega (arith, crc_bit_even c h p, crc_bit_odd d k q)
  ]
  | inr p ↦ elim (parity d) [
    | inl q ↦ omega (arith, crc_bit_odd c h p, crc_bit_even d k q)
    | inr q ↦ omega (arith, crc_bit_halves c d h k (omega arith) e)
  ]
]

crc_rounds_cancel : (n c d : ℕ) → IsWord32 c → IsWord32 d → crc_rounds n c ≡ crc_rounds n d → c ≡ d
unfolding crc_rounds
crc_rounds_cancel zero c d h k e = e
crc_rounds_cancel (suc n) c d h k e =
    crc_bit_cancel c d h k
      (crc_rounds_cancel n (crc_bit c) (crc_bit d) (crc_bit-IsWord32 c h) (crc_bit-IsWord32 d k) e)

crc_byte_cancel_state :
    (c d b : ℕ) → IsWord32 c → IsWord32 d → IsByte b → crc_byte c b ≡ crc_byte d b → c ≡ d
unfolding crc_byte
crc_byte_cancel_state c d b h k i e = bit_xor_cancel 32 c d b h k (
    crc_rounds_cancel 8 (bit_xor c b) (bit_xor d b) (bit_xor-lt 32 c b h (omega arith))
      (bit_xor-lt 32 d b k (omega arith)) e)

crc_byte_cancel_byte :
    (c x y : ℕ) → IsWord32 c → IsByte x → IsByte y → crc_byte c x ≡ crc_byte c y → x ≡ y
unfolding crc_byte
crc_byte_cancel_byte c x y h i j e = bit_xor_cancel_left 32 x y c (omega arith) (omega arith) (
    crc_rounds_cancel 8 (bit_xor c x) (bit_xor c y) (bit_xor-lt 32 c x h (omega arith))
      (bit_xor-lt 32 c y h (omega arith)) e)

-- From two states, the same bytes lead to the same state only if the states were equal.
update_crc_cancel :
    (c d : ℕ) (bs : Bytes)
    → IsWord32 c
    → IsWord32 d
    → All IsByte bs
    → update_crc c bs ≡ update_crc d bs
    → c ≡ d
unfolding update_crc
update_crc_cancel c d [] h k i e = e
update_crc_cancel c d (b ∷ bs) h k i e = crc_byte_cancel_state c d b h k i.0 (
    update_crc_cancel (crc_byte c b) (crc_byte d b) bs (crc_byte-IsWord32 c b h i.0)
      (crc_byte-IsWord32 d b k i.0) i.1 e)

update_crc-Differs :
    {x y : ℕ} (c : ℕ) {xs ys : Bytes}
    → Differs x y xs ys
    → IsWord32 c
    → All IsByte xs
    → All IsByte ys
    → update_crc c xs ≡ update_crc c ys
    → x ≡ y
unfolding update_crc
update_crc-Differs {x} {y} c (here back) h f g e = crc_byte_cancel_byte c x y h f.0 g.0 (
    update_crc_cancel (crc_byte c x) (crc_byte c y) back (crc_byte-IsWord32 c x h f.0)
      (crc_byte-IsWord32 c y h g.0) f.1 e)
update_crc-Differs c (there b d) h f g e =
    update_crc-Differs (crc_byte c b) d (crc_byte-IsWord32 c b h f.0) f.1 g.1 e

final_cancel :
    (c d : ℕ) → IsWord32 c → IsWord32 d → bit_xor c 0xffffffff ≡ bit_xor d 0xffffffff → c ≡ d
final_cancel c d h k e = bit_xor_cancel 32 c d 0xffffffff h k e

module _ {x y : ℕ} (xs ys zs : Bytes) (f : All IsByte xs) (g : All IsByte ys)
    (k : All IsByte zs) where
  -- A byte changed in the first buffer, or in the second one, changes the checksum.
  pub crc32_iso_hdlc-Differs_first :
      Differs x y xs ys → crc32_iso_hdlc xs zs ≡ crc32_iso_hdlc ys zs → x ≡ y
  unfolding crc32_iso_hdlc
  crc32_iso_hdlc-Differs_first d e =
      let u = update_crc-IsWord32 0xffffffff xs (omega arith) f in
      let v = update_crc-IsWord32 0xffffffff ys (omega arith) g in
      update_crc-Differs 0xffffffff d (omega arith) f g (
        update_crc_cancel _ _ zs u v k
          (final_cancel _ _ (update_crc-IsWord32 _ zs u k) (update_crc-IsWord32 _ zs v k) e))

  pub crc32_iso_hdlc-Differs_second :
      Differs x y xs ys → crc32_iso_hdlc zs xs ≡ crc32_iso_hdlc zs ys → x ≡ y
  unfolding crc32_iso_hdlc
  crc32_iso_hdlc-Differs_second d e =
      let u = update_crc-IsWord32 0xffffffff zs (omega arith) k in
      update_crc-Differs _ d u f g
        (final_cancel _ _ (update_crc-IsWord32 _ xs u f) (update_crc-IsWord32 _ ys u g) e)
