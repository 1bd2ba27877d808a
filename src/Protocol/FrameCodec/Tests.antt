-- ===== src/Protocol/FrameCodec/Tests.antt =====
-- Datagrams on which `frame_codec.cpp` is run.
use lora_messenger.Common.{
  ℕ, ◌≡◌, refl, true, some, [], ◌∷◌, ◌++◌, take, drop, All, replicate, arith,
}
use lora_messenger.Core.Result.{success, failure}
use lora_messenger.Words.Network.{IsByte, are_bytes-IsByte, write_uint}
use lora_messenger.Protocol.Limits.{Bytes, is_supported_mtu, frame_payload_capacity}
use lora_messenger.Protocol.FrameCodec.{
  DataFrame, FrameCodecError, encode_frame, decode_frame, validate_frame_fields, expected_count,
  expected_payload_size,
}
use lora_messenger.Protocol.FrameCodec.Checksum.{
  Differs, here, there, update_crc, crc_byte, crc_rounds, crc_bit, crc32_iso_hdlc,
}
use lora_messenger.Protocol.FrameCodec.Accepts.{IsValid, datagram, encode_frame-datagram}
use lora_messenger.Protocol.FrameCodec.RoundTrip.{IsDataFrame, decode_frame-encode_frame}
use lora_messenger.Protocol.FrameCodec.Canonical.{encode_frame-decode_frame}
use lora_messenger.Protocol.FrameCodec.Corruption.{decode_frame_one_byte}

abbrev pub sample : DataFrame
sample = record {
  tag = 1 ∷ 2 ∷ 3 ∷ 4 ∷ 5 ∷ 6 ∷ 7 ∷ 8 ∷ [];
  sender_sequence = 9;
  fragment_index = 0;
  fragment_count = 1;
  total_length = 46;
  payload = replicate 46 0xa5;
}

sample-IsDataFrame : IsDataFrame sample
sample-IsDataFrame = record {
  tag_size = refl;
  tag_bytes = are_bytes-IsByte sample.tag refl;
  sender_sequence_range = ground arith;
  fragment_index_range = ground arith;
  fragment_count_range = ground arith;
  total_length_range = ground arith;
  payload_bytes = are_bytes-IsByte sample.payload refl;
}

sample-IsValid : IsValid sample 255
unfolding validate_frame_fields expected_count expected_payload_size frame_payload_capacity
sample-IsValid = refl

sample_mtu : is_supported_mtu 255 ≡ true
unfolding is_supported_mtu
sample_mtu = refl

encoded : encode_frame sample 255 ≡ success (datagram sample)
encoded = encode_frame-datagram sample 255 refl sample_mtu sample-IsValid

decode_frame-encode_frame_example : decode_frame (some (datagram sample)) 255 ≡ success sample
decode_frame-encode_frame_example =
    decode_frame-encode_frame sample 255 (datagram sample) sample-IsDataFrame encoded

decoded : decode_frame (some (datagram sample)) 255 ≡ success sample
decoded = decode_frame-encode_frame sample 255 (datagram sample) sample-IsDataFrame encoded

sample_bytes : All IsByte (datagram sample)
unfolding crc32_iso_hdlc update_crc crc_byte crc_rounds crc_bit write_uint
sample_bytes = are_bytes-IsByte (datagram sample) refl

encode_frame-decode_frame_example :
    IsDataFrame sample × (encode_frame sample 255 ≡ success (datagram sample))
encode_frame-decode_frame_example =
    encode_frame-decode_frame (datagram sample) 255 sample sample_bytes decoded

Differs-at : (x y : ℕ) (front back : Bytes) → Differs x y (front ++ x ∷ back) (front ++ y ∷ back)
Differs-at x y [] back = here back
Differs-at x y (b ∷ front) back = there b (Differs-at x y front back)

-- The datagram with the first byte of its payload changed.
abbrev changed : Bytes
changed = take 28 (datagram sample) ++ 0xa4 ∷ drop 29 (datagram sample)

changed_bytes : All IsByte changed
unfolding crc32_iso_hdlc update_crc crc_byte crc_rounds crc_bit write_uint
changed_bytes = are_bytes-IsByte changed refl

changed-Differs : Differs 0xa5 0xa4 (datagram sample) changed
unfolding crc32_iso_hdlc update_crc crc_byte crc_rounds crc_bit write_uint
changed-Differs = Differs-at 0xa5 0xa4 (take 28 (datagram sample)) (drop 29 (datagram sample))

decode_frame_one_byte_example :
    (error : FrameCodecError) × (decode_frame (some changed) 255 ≡ failure error)
decode_frame_one_byte_example =
    decode_frame_one_byte (datagram sample) changed 0xa5 0xa4 255 sample sample_bytes changed_bytes
      changed-Differs (λ e. absurd (omega arith)) decoded
