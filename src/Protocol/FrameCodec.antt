-- ===== src/Protocol/FrameCodec.antt =====
-- src/protocol/frame_codec.h and frame_codec.cpp: the datagrams of version 1.
-- A byte buffer is a list of numbers below 256, and a null pointer is `none`. An array that is filled
-- in place is written with `write_at`, at the offsets of the source.
pub mod Checksum
pub mod Layout
pub mod Counts
pub mod Accepts
pub mod RoundTrip
pub mod Canonical
pub mod Corruption
pub mod Tests
use lora_messenger.Common.{
  ℕ, ◌+◌, ◌-◌, ◌*◌, ◌/◌, ◌%◌, ◌^◌, Bool, true, false, not, ◌&&◌, ◌||◌, Option, none, some, List, [],
  ◌∷◌, ◌++◌, length, get_or, take, drop, replicate, write_at, ltb, leb, ◌==◌, nat_eq, if◌then◌else◌,
}
use lora_messenger.Core.Result.{Result, success, failure, ◌>>=◌, ◌>>◌, reject}
use lora_messenger.Words.Network.{write_uint, read_uint}
use lora_messenger.Protocol.Limits.{
  Bytes, MessageTag, protocol_version, data_frame_type, frame_magic_first, frame_magic_second,
  frame_header_bytes, maximum_transport_mtu, maximum_frame_payload_bytes,
  minimum_encoded_post_bytes, maximum_encoded_post_bytes, maximum_fragments, is_supported_mtu,
  frame_payload_capacity,
}
use Checksum.{crc32_iso_hdlc}

pub record DataFrame : Type 0 where
  pub tag : MessageTag
  pub sender_sequence : ℕ
  pub fragment_index : ℕ
  pub fragment_count : ℕ
  pub total_length : ℕ
  pub payload : Bytes

-- `None` of the source's enumeration is a success.
pub data FrameCodecError : Type 0 where
  invalid_mtu null_data datagram_too_short datagram_too_large bad_magic : FrameCodecError
  unsupported_version unsupported_type length_mismatch checksum_mismatch : FrameCodecError
  invalid_sender_sequence invalid_total_length invalid_fragment : FrameCodecError
  non_canonical_fragment : FrameCodecError

-- The number of fragments of a post of `total_length` bytes.
unfoldable pub expected_count : ℕ → ℕ → ℕ
expected_count total_length capacity = (total_length + capacity - 1) / capacity

unfoldable pub expected_payload_size : ℕ → ℕ → ℕ → ℕ → ℕ
expected_payload_size index count total_length capacity =
    if ltb (index + 1) count then capacity else total_length - capacity * (count - 1)

unfoldable pub validate_frame_fields : ℕ → ℕ → ℕ → ℕ → ℕ → ℕ → Result (Unit {0}) FrameCodecError
validate_frame_fields sender_sequence index count total_length payload_size mtu = do
  reject (sender_sequence == 0) invalid_sender_sequence
  reject
      (ltb total_length minimum_encoded_post_bytes || ltb maximum_encoded_post_bytes total_length)
      invalid_total_length
  reject
      (count == 0
        || ltb maximum_fragments count
        || leb count index
        || payload_size == 0
        || ltb maximum_frame_payload_bytes payload_size)
      invalid_fragment
  let capacity = frame_payload_capacity mtu
  let expected = expected_count total_length capacity
  reject (expected == 0 || ltb maximum_fragments expected || not (count == expected))
      non_canonical_fragment
  reject (not (payload_size == expected_payload_size index count total_length capacity))
      non_canonical_fragment

-- The header's bytes before the checksum, and the payload, in the zeroed buffer.
pub filled_frame : DataFrame → Bytes
filled_frame frame =
    let encoded = replicate frame_header_bytes 0 ++ replicate (length frame.payload) 0 in
    let encoded = write_at encoded 0 (frame_magic_first ∷ []) in
    let encoded = write_at encoded 1 (frame_magic_second ∷ []) in
    let encoded = write_at encoded 2 ((protocol_version * 16 + data_frame_type) ∷ []) in
    let encoded = write_at encoded 3 frame.tag in
    let encoded = write_at encoded 11 (write_uint 8 frame.sender_sequence) in
    let encoded = write_at encoded 19 (frame.fragment_index ∷ []) in
    let encoded = write_at encoded 20 (frame.fragment_count ∷ []) in
    let encoded = write_at encoded 21 (write_uint 2 frame.total_length) in
    let encoded = write_at encoded 23 ((length frame.payload % 256) ∷ []) in
    write_at encoded frame_header_bytes frame.payload

unfoldable pub encode_frame : DataFrame → ℕ → Result Bytes FrameCodecError
encode_frame frame mtu = do
  reject (not (is_supported_mtu mtu)) invalid_mtu
  validate_frame_fields frame.sender_sequence frame.fragment_index frame.fragment_count
      frame.total_length (length frame.payload) mtu
  let encoded = filled_frame frame
  let checksum =
      crc32_iso_hdlc (take 24 encoded)
        (take (length frame.payload) (drop frame_header_bytes encoded))
  success (write_at encoded 24 (write_uint 4 checksum))

-- `control >> 4` is a division by 16, and `control & 0x0f` its remainder.
unfoldable pub decode_frame : Option Bytes → ℕ → Result DataFrame FrameCodecError
decode_frame none mtu = do reject (not (is_supported_mtu mtu)) invalid_mtu; failure null_data
decode_frame (some bytes) mtu = do
  reject (not (is_supported_mtu mtu)) invalid_mtu
  reject (ltb (length bytes) (frame_header_bytes + 1)) datagram_too_short
  reject (ltb mtu (length bytes) || ltb maximum_transport_mtu (length bytes)) datagram_too_large
  reject
      (not (get_or bytes 0 0 == frame_magic_first) || not (get_or bytes 1 0 == frame_magic_second))
      bad_magic
  let control = get_or bytes 2 0
  reject (not (control / 16 == protocol_version)) unsupported_version
  reject (not (control % 16 == data_frame_type)) unsupported_type
  let payload_size = get_or bytes 23 0
  reject (payload_size == 0 || not (length bytes == frame_header_bytes + payload_size))
      length_mismatch
  let expected_checksum = read_uint (2 ^ 32) 0 (take 4 (drop 24 bytes))
  let actual_checksum = crc32_iso_hdlc (take 24 bytes) (take payload_size (drop 28 bytes))
  reject (not (expected_checksum == actual_checksum)) checksum_mismatch
  let frame : DataFrame = record {
    tag = take 8 (drop 3 bytes);
    sender_sequence = read_uint (2 ^ 64) 0 (take 8 (drop 11 bytes));
    fragment_index = get_or bytes 19 0;
    fragment_count = get_or bytes 20 0;
    total_length = read_uint (2 ^ 16) 0 (take 2 (drop 21 bytes));
    payload = drop 28 bytes;
  }
  validate_frame_fields frame.sender_sequence frame.fragment_index frame.fragment_count
      frame.total_length payload_size mtu
  success frame
