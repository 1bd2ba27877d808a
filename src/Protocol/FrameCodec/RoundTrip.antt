-- ===== src/Protocol/FrameCodec/RoundTrip.antt =====
-- `decode_frame` and `encode_frame` are inverse to one another.
use lora_messenger.Common.{
  ℕ, ◌+◌, ◌%◌, ◌^◌, ◌<◌, ◌≤◌, ◌≡◌, refl, ap, ap₂, ◌∙◌, sym, length, take, drop, get_or, true, false,
  not, ◌==◌, nat_eq, some, arith, All, All-append, take_all,
}
use lora_messenger.Core.Result.{success}
use lora_messenger.Words.Network.{
  IsByte, write_uint, read_uint, read_uint-write_uint, write_uint-IsByte,
}
use lora_messenger.Protocol.Limits.{Bytes, is_supported_mtu, frame_payload_capacity}
use lora_messenger.Protocol.FrameCodec.{DataFrame, encode_frame, decode_frame}
use lora_messenger.Protocol.FrameCodec.Checksum.{crc32_iso_hdlc, crc32_iso_hdlc-IsWord32}
use lora_messenger.Protocol.FrameCodec.Counts.{
  validate_frame_fields-Fields, capacity_lem, expected_payload_size-le,
}
use lora_messenger.Protocol.FrameCodec.Layout.{header, eight}
use lora_messenger.Protocol.FrameCodec.Accepts.{
  IsValid, datagram, Accepted, parsed, AcceptedAs-decode_frame, encode_frame-eq_success,
}

-- The ranges of the fields' types: `std::array<std::uint8_t, 8>`, `std::uint64_t` and so on.
pub record IsDataFrame (frame : DataFrame) : Type 0 where
  pub tag_size : length frame.tag ≡ 8
  pub tag_bytes : All IsByte frame.tag
  pub sender_sequence_range : frame.sender_sequence < 2 ^ 64
  pub fragment_index_range : frame.fragment_index < 256
  pub fragment_count_range : frame.fragment_count < 256
  pub total_length_range : frame.total_length < 2 ^ 16
  pub payload_bytes : All IsByte frame.payload

-- What a valid frame's payload measures.
IsValid-payload :
    (frame : DataFrame) (mtu : ℕ)
    → is_supported_mtu mtu ≡ true
    → IsValid frame mtu
    → (0 < length frame.payload) × (length frame.payload + 28 ≤ mtu) × (mtu ≤ 255)
IsValid-payload frame mtu s v =
    let f = validate_frame_fields-Fields _ _ _ _ _ _ v in
    let (c, d, e) = capacity_lem mtu s in
    let fits =
      expected_payload_size-le frame.fragment_index frame.total_length (frame_payload_capacity mtu)
        (omega arith) in
    (f.size_pos, ground (arith, f.count_exact, f.size_exact, d, fits), e)

header-IsByte : (frame : DataFrame) → IsDataFrame frame → All IsByte (header frame)
header-IsByte frame w = (
  omega arith,
  (
    omega arith,
    (
      omega arith,
      All-append IsByte frame.tag _ w.tag_bytes (
          All-append IsByte (write_uint 8 frame.sender_sequence) _ (write_uint-IsByte 8 _) (
            w.fragment_index_range,
            (
              w.fragment_count_range,
              All-append IsByte (write_uint 2 frame.total_length) _ (write_uint-IsByte 2 _)
                  (omega arith, tt),
            ),
          )),
    ),
  ),
)

-- The parts of a datagram, as `decode_frame` finds them, before the words are read.
pub parts :
    (frame : DataFrame)
    → length frame.tag ≡ 8
    → let bytes = datagram frame in
      let sum = write_uint 4 (crc32_iso_hdlc (header frame) frame.payload) in
      (length bytes ≡ 28 + length frame.payload)
      × (take 24 bytes ≡ header frame)
      × (take 4 (drop 24 bytes) ≡ sum)
      × (get_or bytes 23 0 ≡ length frame.payload % 256)
      × (parsed bytes ≡ record {
        tag = frame.tag;
        sender_sequence = read_uint (2 ^ 64) 0 (write_uint 8 frame.sender_sequence);
        fragment_index = frame.fragment_index;
        fragment_count = frame.fragment_count;
        total_length = read_uint (2 ^ 16) 0 (write_uint 2 frame.total_length);
        payload = frame.payload;
      })
unfolding write_uint
parts frame h =
    let (a, b, c, d, e, f, g, i, p) = eight frame.tag h in
    rw p (omega arith, refl, refl, refl, refl)

parsed-datagram : (frame : DataFrame) → IsDataFrame frame → parsed (datagram frame) ≡ frame
parsed-datagram frame w =
    let (l, t, c, n, p) = parts frame w.tag_size in
    p
    ∙ rw (
      read_uint-write_uint 8 (2 ^ 64) frame.sender_sequence w.sender_sequence_range
          w.sender_sequence_range,
      read_uint-write_uint 2 (2 ^ 16) frame.total_length w.total_length_range w.total_length_range,
    )

test_passes : (a b : ℕ) → a ≡ b → not (a == b) ≡ false
test_passes a b e = ground arith

datagram-size :
    (frame : DataFrame) (mtu : ℕ)
    → length frame.tag ≡ 8
    → is_supported_mtu mtu ≡ true
    → IsValid frame mtu
    → get_or (datagram frame) 23 0 ≡ length frame.payload
datagram-size frame mtu h s v =
    let (l, t, c, n, _) = parts frame h in
    let (pos, fits, small) = IsValid-payload frame mtu s v in omega (arith, n, fits, small)

datagram-checksum :
    (frame : DataFrame)
    → IsDataFrame frame
    → let bytes = datagram frame in
      read_uint (2 ^ 32) 0 (take 4 (drop 24 bytes))
      ≡ crc32_iso_hdlc (take 24 bytes) (take (length frame.payload) (drop 28 bytes))
datagram-checksum frame w =
    let (l, t, c, n, p) = parts frame w.tag_size in
    let sum =
      crc32_iso_hdlc-IsWord32 (header frame) frame.payload (header-IsByte frame w)
        w.payload_bytes in
    let e : drop 28 (datagram frame) ≡ frame.payload = ap (λ (f : DataFrame). f.payload) p in
    ap (read_uint (2 ^ 32) 0) c
    ∙ read_uint-write_uint 4 (2 ^ 32) _ sum sum
    ∙ sym (ap₂ crc32_iso_hdlc t (ap (take (length frame.payload)) e ∙ take_all frame.payload))

datagram-Accepted :
    (frame : DataFrame) (mtu : ℕ)
    → IsDataFrame frame
    → is_supported_mtu mtu ≡ true
    → IsValid frame mtu
    → Accepted (datagram frame) mtu
datagram-Accepted frame mtu w s v =
    let (l, t, c, n, _) = parts frame w.tag_size in
    let (pos, fits, small) = IsValid-payload frame mtu s v in
    let size = datagram-size frame mtu w.tag_size s v in
    record {
      mtu_ok = s;
      long = ground (arith, l);
      small = ground (arith, l);
      magic = refl;
      version = refl;
      frame_type = refl;
      size = ground (arith, l, size);
      checksum = rw size (test_passes _ _ (datagram-checksum frame w));
    }

-- A frame that `encode_frame` accepts is read back by `decode_frame` from the datagram.
pub decode_frame-encode_frame :
    (frame : DataFrame) (mtu : ℕ) (bytes : Bytes)
    → IsDataFrame frame
    → encode_frame frame mtu ≡ success bytes
    → decode_frame (some bytes) mtu ≡ success frame
decode_frame-encode_frame frame mtu bytes w e =
    let (s, v, p) = encode_frame-eq_success frame mtu w.tag_size e in
    let a = datagram-Accepted frame mtu w s v in
    rw (← p) (
      AcceptedAs-decode_frame (datagram frame) mtu
        (a, rw (datagram-size frame mtu w.tag_size s v) v, parsed-datagram frame w))
