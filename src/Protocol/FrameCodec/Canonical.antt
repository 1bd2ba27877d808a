-- ===== src/Protocol/FrameCodec/Canonical.antt =====
-- What `decode_frame` accepts is the datagram of the frame that it returns.
use lora_messenger.Common.{
  ℕ, ◌+◌, ◌%◌, ◌^◌, ◌≤◌, ◌≡◌, refl, ap, ap₂, ◌∙◌, sym, subst, [], ◌∷◌, ◌++◌, length, take, drop,
  get_or, Bool, true, false, not, nat_eq, nat_beq_iff, some, arith, All, All-drop, All-slice,
  take_all, length-drop,
}
use lora_messenger.Core.Result.{success}
use lora_messenger.Words.Network.{IsByte, write_uint, read_uint, read_uint-lt, write_uint-read_uint}
use lora_messenger.Protocol.Limits.{Bytes}
use lora_messenger.Protocol.FrameCodec.{DataFrame, encode_frame, decode_frame}
use lora_messenger.Protocol.FrameCodec.Checksum.{crc32_iso_hdlc}
use lora_messenger.Protocol.FrameCodec.Layout.{header}
use lora_messenger.Protocol.FrameCodec.Accepts.{
  IsValid, datagram, Accepted, parsed, decode_frame-AcceptedAs, encode_frame-datagram,
}
use lora_messenger.Protocol.FrameCodec.RoundTrip.{IsDataFrame}

-- A datagram of 29 bytes or more, taken apart at the offsets of the header.
data Long : Bytes → Type 0 where
  long :
      (m n c t0 t1 t2 t3 t4 t5 t6 t7 s0 s1 s2 s3 s4 s5 s6 s7 i k l0 l1 z c0 c1 c2 c3 : ℕ)
      (payload : Bytes)
      → Long (
          m ∷ n ∷ c ∷ t0 ∷ t1 ∷ t2 ∷ t3 ∷ t4 ∷ t5 ∷ t6 ∷ t7 ∷ s0 ∷ s1 ∷ s2 ∷ s3 ∷ s4 ∷ s5 ∷ s6 ∷ s7
          ∷ i ∷ k ∷ l0 ∷ l1 ∷ z ∷ c0 ∷ c1 ∷ c2 ∷ c3 ∷ payload)

Long-view : (bytes : Bytes) → 28 ≤ length bytes → Long bytes
Long-view
      (m ∷ n ∷ c ∷ t0 ∷ t1 ∷ t2 ∷ t3 ∷ t4 ∷ t5 ∷ t6 ∷ t7 ∷ s0 ∷ s1 ∷ s2 ∷ s3 ∷ s4 ∷ s5 ∷ s6 ∷ s7 ∷ i
        ∷ k ∷ l0 ∷ l1 ∷ z ∷ c0 ∷ c1 ∷ c2 ∷ c3 ∷ payload)
      h =
    long m n c t0 t1 t2 t3 t4 t5 t6 t7 s0 s1 s2 s3 s4 s5 s6 s7 i k l0 l1 z c0 c1 c2 c3 payload
Long-view _ h = absurd (omega arith)

pub sized :
    (bytes : Bytes) (mtu : ℕ)
    → Accepted bytes mtu
    → (28 + get_or bytes 23 0 ≡ length bytes) × (28 ≤ length bytes)
sized bytes mtu a = ground (arith, a.size, a.long)

header-parsed :
    {bytes : Bytes} (mtu : ℕ)
    → Long bytes
    → All IsByte bytes
    → Accepted bytes mtu
    → header (parsed bytes) ≡ take 24 bytes
header-parsed mtu
      (long m n c t0 t1 t2 t3 t4 t5 t6 t7 s0 s1 s2 s3 s4 s5 s6 s7 i k l0 l1 z c0 c1 c2 c3 payload) w
      a =
    let bytes : Bytes =
      m ∷ n ∷ c ∷ t0 ∷ t1 ∷ t2 ∷ t3 ∷ t4 ∷ t5 ∷ t6 ∷ t7 ∷ s0 ∷ s1 ∷ s2 ∷ s3 ∷ s4 ∷ s5 ∷ s6 ∷ s7 ∷ i
      ∷ k ∷ l0 ∷ l1 ∷ z ∷ c0 ∷ c1 ∷ c2 ∷ c3 ∷ payload in
    let first : m ≡ 0x4c = ground (arith, a.magic) in
    let second : n ≡ 0x4d = ground (arith, a.magic) in
    let third : c ≡ 0x10 = ground (arith, a.version, a.frame_type) in
    let sequence : Bytes = s0 ∷ s1 ∷ s2 ∷ s3 ∷ s4 ∷ s5 ∷ s6 ∷ s7 ∷ [] in
    let total : Bytes = l0 ∷ l1 ∷ [] in
    let e8 = write_uint-read_uint (2 ^ 64) sequence (All-slice IsByte 8 11 bytes w) (omega arith) in
    let e2 = write_uint-read_uint (2 ^ 16) total (All-slice IsByte 2 21 bytes w) (omega arith) in
    let fit = sized bytes mtu a in
    let byte = (All-drop IsByte 23 bytes w).0 in
    let last : length payload % 256 ≡ z = omega (arith, fit.0, byte) in
    rw (e8, e2, last, first, second, third)

-- The four checksum bytes, once the checksum is known to be right.
checksum-parsed :
    {bytes : Bytes} (mtu : ℕ)
    → Long bytes
    → All IsByte bytes
    → Accepted bytes mtu
    → write_uint 4 (crc32_iso_hdlc (take 24 bytes) (drop 28 bytes)) ≡ take 4 (drop 24 bytes)
checksum-parsed mtu
      (long m n c t0 t1 t2 t3 t4 t5 t6 t7 s0 s1 s2 s3 s4 s5 s6 s7 i k l0 l1 z c0 c1 c2 c3 payload) w
      a =
    let bytes : Bytes =
      m ∷ n ∷ c ∷ t0 ∷ t1 ∷ t2 ∷ t3 ∷ t4 ∷ t5 ∷ t6 ∷ t7 ∷ s0 ∷ s1 ∷ s2 ∷ s3 ∷ s4 ∷ s5 ∷ s6 ∷ s7 ∷ i
      ∷ k ∷ l0 ∷ l1 ∷ z ∷ c0 ∷ c1 ∷ c2 ∷ c3 ∷ payload in
    let fit = sized bytes mtu a in
    let same : length payload ≡ z = omega (arith, fit.0) in
    let all : take z payload ≡ payload = rw (← same) (take_all payload) in
    let sum : Bytes = c0 ∷ c1 ∷ c2 ∷ c3 ∷ [] in
    let e : read_uint (2 ^ 32) 0 sum ≡ crc32_iso_hdlc (take 24 bytes) (take z payload) =
      ground (arith, a.checksum) in
    rw (e ∙ ap (crc32_iso_hdlc (take 24 bytes)) all) at
      (write_uint-read_uint (2 ^ 32) sum (All-slice IsByte 4 24 bytes w) (omega arith))

pub checksum_bytes :
    (bytes : Bytes) (mtu : ℕ)
    → All IsByte bytes
    → Accepted bytes mtu
    → write_uint 4 (crc32_iso_hdlc (take 24 bytes) (drop 28 bytes)) ≡ take 4 (drop 24 bytes)
checksum_bytes bytes mtu w a = checksum-parsed mtu (Long-view bytes (sized bytes mtu a).1) w a

pub checksum_word :
    (bytes : Bytes) (mtu : ℕ)
    → Accepted bytes mtu
    → read_uint (2 ^ 32) 0 (take 4 (drop 24 bytes)) ≡ crc32_iso_hdlc (take 24 bytes) (drop 28 bytes)
checksum_word bytes mtu a =
    let fit = sized bytes mtu a in
    let size : get_or bytes 23 0 ≡ length (drop 28 bytes) =
      omega (arith, fit.0, length-drop 28 bytes) in
    let whole : take (get_or bytes 23 0) (drop 28 bytes) ≡ drop 28 bytes =
      rw size (take_all (drop 28 bytes)) in
    (nat_beq_iff _ _).0 (not_false _ a.checksum) ∙ ap (crc32_iso_hdlc (take 24 bytes)) whole
  where
    not_false : (b : Bool) → not b ≡ false → b ≡ true
    not_false true h = refl
    not_false false h = cc

rejoin :
    {bytes : Bytes}
    → Long bytes
    → take 24 bytes ++ (take 4 (drop 24 bytes) ++ drop 28 bytes) ≡ bytes
rejoin
      (long m n c t0 t1 t2 t3 t4 t5 t6 t7 s0 s1 s2 s3 s4 s5 s6 s7 i k l0 l1 z c0 c1 c2 c3 payload) =
    refl

pub datagram-parsed :
    (bytes : Bytes) (mtu : ℕ)
    → All IsByte bytes
    → Accepted bytes mtu
    → datagram (parsed bytes) ≡ bytes
datagram-parsed bytes mtu w a =
    let view = Long-view bytes (sized bytes mtu a).1 in
    let head = header-parsed mtu view w a in
    let join : Bytes → Bytes → Bytes = λ h sum. h ++ (sum ++ drop 28 bytes) in
    ap₂ join head (
      ap (λ (h : Bytes). write_uint 4 (crc32_iso_hdlc h (drop 28 bytes))) head
      ∙ checksum-parsed mtu view w a)
    ∙ rejoin view

-- The fields that `decode_frame` reads from bytes are in the ranges of their types.
parsed-IsDataFrame : {bytes : Bytes} → Long bytes → All IsByte bytes → IsDataFrame (parsed bytes)
parsed-IsDataFrame
      (long m n c t0 t1 t2 t3 t4 t5 t6 t7 s0 s1 s2 s3 s4 s5 s6 s7 i k l0 l1 z c0 c1 c2 c3 payload)
      w =
    let bytes : Bytes =
      m ∷ n ∷ c ∷ t0 ∷ t1 ∷ t2 ∷ t3 ∷ t4 ∷ t5 ∷ t6 ∷ t7 ∷ s0 ∷ s1 ∷ s2 ∷ s3 ∷ s4 ∷ s5 ∷ s6 ∷ s7 ∷ i
      ∷ k ∷ l0 ∷ l1 ∷ z ∷ c0 ∷ c1 ∷ c2 ∷ c3 ∷ payload in
    record {
      tag_size = refl;
      tag_bytes = All-slice IsByte 8 3 bytes w;
      sender_sequence_range = read_uint-lt (2 ^ 64) _ (All-slice IsByte 8 11 bytes w) (omega arith);
      fragment_index_range = (All-drop IsByte 19 bytes w).0;
      fragment_count_range = (All-drop IsByte 20 bytes w).0;
      total_length_range = read_uint-lt (2 ^ 16) _ (All-slice IsByte 2 21 bytes w) (omega arith);
      payload_bytes = All-drop IsByte 28 bytes w;
    }

-- Any bytes that `decode_frame` accepts are what `encode_frame` writes for the frame read, at the
-- same transport size, and that frame's fields are in the ranges of their types.
pub encode_frame-decode_frame :
    (bytes : Bytes) (mtu : ℕ) (frame : DataFrame)
    → All IsByte bytes
    → decode_frame (some bytes) mtu ≡ success frame
    → IsDataFrame frame × (encode_frame frame mtu ≡ success bytes)
encode_frame-decode_frame bytes mtu frame w e =
    let (a, v, p) = decode_frame-AcceptedAs bytes mtu e in
    let fit = sized bytes mtu a in
    let typed = parsed-IsDataFrame (Long-view bytes fit.1) w in
    let size : length frame.payload ≡ get_or bytes 23 0 =
      ap (λ (f : DataFrame). length f.payload) (sym p)
      ∙ omega (arith, length-drop 28 bytes, fit.0) in
    let valid : IsValid frame mtu = rw size v in
    (
      subst IsDataFrame p typed,
      rw (← p) (
          encode_frame-datagram (parsed bytes) mtu typed.tag_size a.mtu_ok
            (subst (λ (f : DataFrame). IsValid f mtu) (sym p) valid)
          ∙ ap success (datagram-parsed bytes mtu w a)),
    )
