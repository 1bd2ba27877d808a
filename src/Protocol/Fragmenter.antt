-- ===== src/Protocol/Fragmenter.antt =====
-- src/protocol/fragmenter.h and fragmenter.cpp: a post as datagrams.
pub mod Shares
pub mod Frames
pub mod Correct
pub mod Tests
use lora_messenger.Common.{
  ℕ, zero, suc, ◌+◌, ◌-◌, ◌*◌, ◌%◌, min, not, ◌||◌, some, List, [], ◌∷◌, length, take, drop, ltb,
  ◌==◌, nat_eq,
}
use lora_messenger.Core.Result.{Result, success, failure, ◌>>=◌, ◌>>◌, reject, or_fail}
use lora_messenger.Model.Post.{PostPayload}
use lora_messenger.Protocol.Limits.{
  Bytes, MessageTag, maximum_fragments, is_supported_mtu, frame_payload_capacity,
}
use lora_messenger.Protocol.FrameCodec.{DataFrame, encode_frame, expected_count}
use lora_messenger.Protocol.PostCodec.{encode_post, message_tag}

-- `None` of the source's enumeration is a success.
pub data FragmentError : Type 0 where
  invalid_mtu post_encode_failed too_many_fragments frame_encode_failed : FragmentError

-- The frame that a round of the loop builds.
unfoldable pub fragment_frame : MessageTag → ℕ → Bytes → ℕ → ℕ → ℕ → DataFrame
fragment_frame tag sender_sequence logical capacity fragment_count index =
    let offset = index * capacity in
    let payload_size = min capacity (length logical - offset) in
    record {
      tag = tag;
      sender_sequence = sender_sequence;
      fragment_index = index % 256;
      fragment_count = fragment_count % 256;
      total_length = length logical % 65536;
      payload = take payload_size (drop offset logical);
    }

-- The loop, for the rounds that are left; `frame_at` is the frame of a round.
unfoldable pub fragment_loop : (ℕ → DataFrame) → ℕ → ℕ → ℕ → Result (List Bytes) FragmentError
fragment_loop frame_at mtu zero index = success []
fragment_loop frame_at mtu (suc n) index = do
  encoded ← or_fail (encode_frame (frame_at index) mtu) frame_encode_failed
  rest ← fragment_loop frame_at mtu n (index + 1)
  success (encoded ∷ rest)

unfoldable pub fragment_post : PostPayload → ℕ → Result (List Bytes) FragmentError
fragment_post post mtu = do
  reject (not (is_supported_mtu mtu)) invalid_mtu
  logical ← or_fail (encode_post post) post_encode_failed
  let capacity = frame_payload_capacity mtu
  let fragment_count = expected_count (length logical) capacity
  reject (fragment_count == 0 || ltb maximum_fragments fragment_count) too_many_fragments
  fragment_loop
      (fragment_frame (message_tag post.message_id) post.sender_sequence logical capacity
        fragment_count)
      mtu fragment_count 0
