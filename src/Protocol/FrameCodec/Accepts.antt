-- ===== src/Protocol/FrameCodec/Accepts.antt =====
-- When `encode_frame` and `decode_frame` succeed, and with what.
use lora_messenger.Common.{
  ℕ, ◌+◌, ◌/◌, ◌%◌, ◌^◌, ◌≡◌, refl, ap, ◌∙◌, sym, ◌∷◌, ◌++◌, length, take, drop, get_or, true,
  false, not, ◌||◌, ◌==◌, nat_eq, ltb, some, arith, write_at, take_all,
}
use lora_messenger.Core.Result.{success}
use lora_messenger.Words.Network.{write_uint, read_uint, length-write_uint}
use lora_messenger.Protocol.Limits.{Bytes, is_supported_mtu}
use lora_messenger.Protocol.FrameCodec.{
  DataFrame, validate_frame_fields, encode_frame, decode_frame, filled_frame,
}
use lora_messenger.Protocol.FrameCodec.Checksum.{crc32_iso_hdlc}
use lora_messenger.Protocol.FrameCodec.Layout.{header, filled_frame-header, eight, four}

abbrev pub IsValid : DataFrame → ℕ → Type 0
IsValid frame mtu =
    validate_frame_fields frame.sender_sequence frame.fragment_index frame.fragment_count
      frame.total_length (length frame.payload) mtu
    ≡ success tt

-- The header, the checksum over header and payload, the payload.
abbrev pub datagram : DataFrame → Bytes
datagram frame =
    header frame ++ (write_uint 4 (crc32_iso_hdlc (header frame) frame.payload) ++ frame.payload)

-- The checks of `decode_frame` that the bytes pass, in its order, and the frame read from them.
pub record Accepted (bytes : Bytes) (mtu : ℕ) : Type 0 where
  pub mtu_ok : is_supported_mtu mtu ≡ true
  pub long : ltb (length bytes) 29 ≡ false
  pub small : ltb mtu (length bytes) || ltb 255 (length bytes) ≡ false
  pub magic : not (get_or bytes 0 0 == 0x4c) || not (get_or bytes 1 0 == 0x4d) ≡ false
  pub version : not (get_or bytes 2 0 / 16 == 1) ≡ false
  pub frame_type : not (get_or bytes 2 0 % 16 == 0) ≡ false
  pub size : get_or bytes 23 0 == 0 || not (length bytes == 28 + get_or bytes 23 0) ≡ false
  pub checksum :
      not (
        read_uint (2 ^ 32) 0 (take 4 (drop 24 bytes))
        == crc32_iso_hdlc (take 24 bytes) (take (get_or bytes 23 0) (drop 28 bytes)))
      ≡ false

abbrev pub parsed : Bytes → DataFrame
parsed bytes = record {
  tag = take 8 (drop 3 bytes);
  sender_sequence = read_uint (2 ^ 64) 0 (take 8 (drop 11 bytes));
  fragment_index = get_or bytes 19 0;
  fragment_count = get_or bytes 20 0;
  total_length = read_uint (2 ^ 16) 0 (take 2 (drop 21 bytes));
  payload = drop 28 bytes;
}

abbrev pub AcceptedAs : Bytes → ℕ → DataFrame → Type 0
AcceptedAs bytes mtu frame =
    Accepted bytes mtu
    × (validate_frame_fields frame.sender_sequence frame.fragment_index frame.fragment_count
          frame.total_length (get_or bytes 23 0) mtu
        ≡ success tt)
    × (parsed bytes ≡ frame)

pub decode_frame-AcceptedAs :
    (bytes : Bytes) (mtu : ℕ) {frame : DataFrame}
    → decode_frame (some bytes) mtu ≡ success frame
    → AcceptedAs bytes mtu frame
unfolding decode_frame
decode_frame-AcceptedAs bytes mtu {frame} h = ground arith

pub AcceptedAs-decode_frame :
    (bytes : Bytes) (mtu : ℕ) {frame : DataFrame}
    → AcceptedAs bytes mtu frame
    → decode_frame (some bytes) mtu ≡ success frame
unfolding decode_frame
AcceptedAs-decode_frame bytes mtu (a, v, p) = ground arith

-- The buffer with its checksum written, once the header stands.
write-checksum :
    (frame : DataFrame) (sum : Bytes)
    → length frame.tag ≡ 8
    → length sum ≡ 4
    → write_at (header frame ++ (0 ∷ 0 ∷ 0 ∷ 0 ∷ frame.payload)) 24 sum
      ≡ header frame ++ (sum ++ frame.payload)
unfolding write_uint
write-checksum frame sum h k =
    let (a, b, c, d, e, f, g, i, p) = eight frame.tag h in
    let (w, x, y, z, q) = four sum k in rw (p, q)

checksum_input :
    (frame : DataFrame)
    → length frame.tag ≡ 8
    → let encoded = header frame ++ (0 ∷ 0 ∷ 0 ∷ 0 ∷ frame.payload) in
      (take 24 encoded ≡ header frame)
      × (take (length frame.payload) (drop 28 encoded) ≡ frame.payload)
unfolding write_uint
checksum_input frame h =
    let (a, b, c, d, e, f, g, i, p) = eight frame.tag h in rw p (refl, take_all frame.payload)

encode_frame-filled :
    (frame : DataFrame) (mtu : ℕ) {bytes : Bytes}
    → encode_frame frame mtu ≡ success bytes
    → (is_supported_mtu mtu ≡ true)
      × IsValid frame mtu
      × (write_at (filled_frame frame) 24 (
            write_uint 4 (
              crc32_iso_hdlc
                (take 24 (filled_frame frame))
                (take (length frame.payload) (drop 28 (filled_frame frame)))))
          ≡ bytes)
unfolding encode_frame
encode_frame-filled frame mtu h = ground arith

filled-encode_frame :
    (frame : DataFrame) (mtu : ℕ)
    → is_supported_mtu mtu ≡ true
    → IsValid frame mtu
    → encode_frame frame mtu
      ≡ success (
          write_at (filled_frame frame) 24 (
            write_uint 4 (
              crc32_iso_hdlc
                (take 24 (filled_frame frame))
                (take (length frame.payload) (drop 28 (filled_frame frame))))))
unfolding encode_frame
filled-encode_frame frame mtu s v = ground arith

filled-datagram :
    (frame : DataFrame)
    → length frame.tag ≡ 8
    → write_at (filled_frame frame) 24 (
        write_uint 4 (
          crc32_iso_hdlc
            (take 24 (filled_frame frame))
            (take (length frame.payload) (drop 28 (filled_frame frame)))))
      ≡ datagram frame
filled-datagram frame h =
    rw (filled_frame-header frame h, (checksum_input frame h).0, (checksum_input frame h).1)
      (write-checksum frame _ h (length-write_uint 4 _))

-- `encode_frame` succeeds on the valid frames of a supported size only, with their datagram.
pub encode_frame-datagram :
    (frame : DataFrame) (mtu : ℕ)
    → length frame.tag ≡ 8
    → is_supported_mtu mtu ≡ true
    → IsValid frame mtu
    → encode_frame frame mtu ≡ success (datagram frame)
encode_frame-datagram frame mtu h s v =
    filled-encode_frame frame mtu s v ∙ ap success (filled-datagram frame h)

pub encode_frame-eq_success :
    (frame : DataFrame) (mtu : ℕ) {bytes : Bytes}
    → length frame.tag ≡ 8
    → encode_frame frame mtu ≡ success bytes
    → (is_supported_mtu mtu ≡ true) × IsValid frame mtu × (datagram frame ≡ bytes)
encode_frame-eq_success frame mtu h e =
    let (s, v, p) = encode_frame-filled frame mtu e in (s, v, sym (filled-datagram frame h) ∙ p)
