-- ===== src/Protocol/FrameCodec/Corruption.antt =====
-- What the checksum protects against.
use lora_messenger.Common.{
  ℕ, zero, suc, ◌+◌, ◌^◌, ◌≡◌, refl, ap, ap₂, subst₂, ◌∙◌, sym, [], ◌∷◌, ◌⊎◌, ◌≢◌, inl, inr, length,
  take, drop, some, arith, All, All-drop, All-take,
}
use lora_messenger.Core.Result.{success, failure, Result-cases}
use lora_messenger.Words.Network.{IsByte, write_uint, read_uint}
use lora_messenger.Protocol.Limits.{Bytes}
use lora_messenger.Protocol.FrameCodec.{DataFrame, FrameCodecError, decode_frame}
use lora_messenger.Protocol.FrameCodec.Checksum.{
  crc32_iso_hdlc, Differs, here, there, crc32_iso_hdlc-Differs_first, crc32_iso_hdlc-Differs_second,
}
use lora_messenger.Protocol.FrameCodec.Accepts.{Accepted, decode_frame-AcceptedAs}
use lora_messenger.Protocol.FrameCodec.Canonical.{checksum_bytes, checksum_word}

Differs-length : {x y : ℕ} {xs ys : Bytes} → Differs x y xs ys → length xs ≡ length ys
Differs-length (here back) = refl
Differs-length (there b d) = ap suc (Differs-length d)

-- The changed byte stands among the first `n`, or behind them.
Differs-split :
    {x y : ℕ} (n : ℕ) {xs ys : Bytes}
    → Differs x y xs ys
    → (Differs x y (take n xs) (take n ys) × (drop n xs ≡ drop n ys))
      ⊎ ((take n xs ≡ take n ys) × Differs x y (drop n xs) (drop n ys))
Differs-split zero d = inr (refl, d)
Differs-split (suc n) (here back) = inl (here (take n back), refl)
Differs-split (suc n) (there b d) = elim (Differs-split n d) [
  | inl (e, p) ↦ inl (there b e, p)
  | inr (p, e) ↦ inr (ap (◌∷◌ b) p, e)
]

Differs-irrefl : {x y : ℕ} {xs ys : Bytes} → Differs x y xs ys → xs ≡ ys → x ≡ y
Differs-irrefl (here back) e = cc
Differs-irrefl (there b d) e = Differs-irrefl d (ap (drop 1) e)

drop-nil : (n : ℕ) → drop {A = ℕ} n [] ≡ []
drop-nil zero = refl
drop-nil (suc n) = refl

drop-drop : (n m k : ℕ) (xs : Bytes) → k ≡ n + m → drop m (drop n xs) ≡ drop k xs
drop-drop zero m k xs e = let p : k ≡ m = omega arith in rw p
drop-drop (suc n) m zero xs e = absurd (omega arith)
drop-drop (suc n) m (suc k) [] e = drop-nil m
drop-drop (suc n) m (suc k) (x ∷ xs) e = drop-drop n m k xs (omega arith)

behind : (xs : Bytes) → drop 4 (drop 24 xs) ≡ drop 28 xs
behind xs = drop-drop 24 4 28 xs (omega arith)

module _ {xs ys : Bytes} {x y : ℕ} (mtu : ℕ) (v : All IsByte xs) (w : All IsByte ys)
    (a : Accepted xs mtu) (b : Accepted ys mtu) where
  -- The change is in the header.
  Differs-header : Differs x y (take 24 xs) (take 24 ys) → drop 24 xs ≡ drop 24 ys → x ≡ y
  Differs-header h tail =
      let rest : drop 28 xs ≡ drop 28 ys = sym (behind xs) ∙ ap (drop 4) tail ∙ behind ys in
      let word = ap (λ (t : Bytes). read_uint (2 ^ 32) 0 (take 4 t)) tail in
      crc32_iso_hdlc-Differs_first (take 24 xs) (take 24 ys) (drop 28 xs) (All-take IsByte 24 xs v)
        (All-take IsByte 24 ys w) (All-drop IsByte 28 xs v) h
        (sym (checksum_word xs mtu a)
          ∙ word
          ∙ checksum_word ys mtu b
          ∙ ap (crc32_iso_hdlc (take 24 ys)) (sym rest))

  -- The change is in the checksum's own bytes.
  Differs-checksum :
      take 24 xs ≡ take 24 ys
      → Differs x y (take 4 (drop 24 xs)) (take 4 (drop 24 ys))
      → drop 4 (drop 24 xs) ≡ drop 4 (drop 24 ys)
      → x ≡ y
  Differs-checksum head d tail =
      let rest : drop 28 xs ≡ drop 28 ys = sym (behind xs) ∙ tail ∙ behind ys in
      Differs-irrefl d (
        sym (checksum_bytes xs mtu v a)
        ∙ ap (write_uint 4) (ap₂ crc32_iso_hdlc head rest)
        ∙ checksum_bytes ys mtu w b)

  -- The change is in the payload.
  Differs-payload :
      take 24 xs ≡ take 24 ys
      → take 4 (drop 24 xs) ≡ take 4 (drop 24 ys)
      → Differs x y (drop 4 (drop 24 xs)) (drop 4 (drop 24 ys))
      → x ≡ y
  Differs-payload head sum d =
      let d' = subst₂ (Differs x y) (behind xs) (behind ys) d in
      crc32_iso_hdlc-Differs_second (drop 28 xs) (drop 28 ys) (take 24 xs) (All-drop IsByte 28 xs v)
        (All-drop IsByte 28 ys w) (All-take IsByte 24 xs v) d'
        (sym (checksum_word xs mtu a)
          ∙ ap (read_uint (2 ^ 32) 0) sum
          ∙ checksum_word ys mtu b
          ∙ ap (λ (h : Bytes). crc32_iso_hdlc h (drop 28 ys)) (sym head))

-- Of two byte sequences that differ in one byte at most, `decode_frame` accepts both only if they are
-- equal there.
both_accepted :
    (xs ys : Bytes) (x y mtu : ℕ) (frame frame' : DataFrame)
    → All IsByte xs
    → All IsByte ys
    → Differs x y xs ys
    → decode_frame (some xs) mtu ≡ success frame
    → decode_frame (some ys) mtu ≡ success frame'
    → x ≡ y
both_accepted xs ys x y mtu frame frame' v w d e f =
    let a = (decode_frame-AcceptedAs xs mtu e).0 in
    let b = (decode_frame-AcceptedAs ys mtu f).0 in
    elim (Differs-split 24 d) [
      | inl (h, tail) ↦ Differs-header mtu v w a b h tail
      | inr (head, t) ↦ elim (Differs-split 4 t) [
        | inl (c, tail) ↦ Differs-checksum mtu v w a b head c tail
        | inr (sum, p) ↦ Differs-payload mtu v w a b head sum p
      ]
    ]

-- If exactly one byte of an accepted datagram was changed on the way, in the header, the checksum or
-- the payload, then `decode_frame` refuses what arrives, with an error.
pub decode_frame_one_byte :
    (xs ys : Bytes) (x y mtu : ℕ) (frame : DataFrame)
    → All IsByte xs
    → All IsByte ys
    → Differs x y xs ys
    → x ≢ y
    → decode_frame (some xs) mtu ≡ success frame
    → (error : FrameCodecError) × (decode_frame (some ys) mtu ≡ failure error)
decode_frame_one_byte xs ys x y mtu frame v w d changed e =
    elim (Result-cases (decode_frame (some ys) mtu)) [
      | inl (frame', f) ↦ absurd (changed (both_accepted xs ys x y mtu frame frame' v w d e f))
      | inr refused ↦ refused
    ]
