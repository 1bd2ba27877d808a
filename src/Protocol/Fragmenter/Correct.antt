-- ===== src/Protocol/Fragmenter/Correct.antt =====
-- `fragment_post` loses nothing of a post.

use lora_messenger.Common.{
  ℕ, zero, suc, ◌+◌, ◌||◌, not, ltb, ◌==◌, ◌*◌, ◌<◌, ◌≤◌, ◌≡◌, sym, ap, ◌∙◌, subst, true, List,
  length, drop, nat_eq, All, arith,
}
use lora_messenger.Core.Result.{
  success, or_fail, reject-eq_success, >>=-eq_success, success-injective,
}
use lora_messenger.Model.Post.{PostPayload}
use lora_messenger.Model.Post.Valid.Rules.{IsPost}
use lora_messenger.Words.Network.{IsByte}
use lora_messenger.Protocol.Limits.{
  Bytes, maximum_fragments, is_supported_mtu, frame_payload_capacity,
}
use lora_messenger.Protocol.FrameCodec.{DataFrame, encode_frame, expected_count}
use lora_messenger.Protocol.FrameCodec.Counts.{capacity_lem}
use lora_messenger.Protocol.PostCodec.{encode_post, message_tag}
use lora_messenger.Protocol.PostCodec.Layout.{IsPostData, post_bytes-IsByte, message_tag_data}
use lora_messenger.Protocol.PostCodec.RoundTrip.{decode_post-encode_post, encode_post-eq_success}
use lora_messenger.Protocol.Fragmenter.{
  invalid_mtu, post_encode_failed, too_many_fragments, frame_encode_failed, fragment_frame,
  fragment_loop, fragment_post,
}
use lora_messenger.Protocol.Fragmenter.Shares.{count-le, count-pos}
use lora_messenger.Protocol.Fragmenter.Frames.{
  frames_from, datagrams, payloads, Received, Numbered, fragment_loop-frames, payloads-frames_from,
  frames_from-Received, frames_from-Numbered, length-datagrams,
}

pub fragment_post-loop :
    (p : PostPayload) (mtu : ℕ) (bytes : Bytes)
    → is_supported_mtu mtu ≡ true
    → encode_post p ≡ success bytes
    → 0 < expected_count (length bytes) (frame_payload_capacity mtu)
    → expected_count (length bytes) (frame_payload_capacity mtu) ≤ 16
    → fragment_post p mtu
      ≡ fragment_loop
          (fragment_frame
            (message_tag p.message_id)
            p.sender_sequence
            bytes
            (frame_payload_capacity mtu)
            (expected_count (length bytes) (frame_payload_capacity mtu)))
          mtu
          (expected_count (length bytes) (frame_payload_capacity mtu))
          0
unfolding fragment_post
fragment_post-loop p mtu bytes s encoded h k = rw (s, encoded) (ground arith)

-- At any supported transport size a valid post becomes 1 to 16 datagrams. A receiver decodes each of
-- them to a frame of this message; the frames are numbered in their order, and announce their number
-- and the size of the encoded post; their payloads, joined, are the encoded post.
pub fragment_post_complete :
    (p : PostPayload) (mtu : ℕ)
    → IsPost p
    → IsPostData p
    → is_supported_mtu mtu ≡ true
    → (bytes : Bytes) × (sent : List Bytes) × (frames : List DataFrame) × (encode_post p
        ≡ success bytes)
      × (fragment_post p mtu ≡ success sent)
      × Received mtu sent frames
      × Numbered (message_tag p.message_id) p.sender_sequence (length bytes) (length sent) 0 frames
      × (payloads frames ≡ bytes)
      × (0 < length sent)
      × (length sent ≤ 16)
fragment_post_complete p mtu v w s =
    let (bytes, encoded, _, lower, upper) = decode_post-encode_post p v w in
    let is_bytes = subst (All IsByte) (encode_post-eq_success p encoded) (post_bytes-IsByte p w) in
    let (tag_size, tag_bytes) = message_tag_data p w in
    let tag = message_tag p.message_id in
    let n = expected_count (length bytes) (frame_payload_capacity mtu) in
    let cap = capacity_lem mtu s in
    let limit = count-le (length bytes) (frame_payload_capacity mtu) cap.0 (omega arith) upper in
    let some_frame = count-pos (length bytes) (frame_payload_capacity mtu) cap.0 lower in
    let sequence = p.sender_sequence in
    let frames =
      frames_from tag sequence bytes mtu s tag_size tag_bytes v.sequence_pos w.sequence_range
        is_bytes lower upper n 0 in
    let size : length (datagrams frames) ≡ n =
      length-datagrams tag sequence bytes mtu s tag_size tag_bytes v.sequence_pos w.sequence_range
        is_bytes lower upper n 0 in
    let nothing_before : 0 * frame_payload_capacity mtu ≡ 0 = omega arith in
    (
      bytes,
      datagrams frames,
      frames,
      encoded,
      fragment_post-loop p mtu bytes s encoded some_frame limit
          ∙ fragment_loop-frames tag sequence bytes mtu s tag_size tag_bytes v.sequence_pos
              w.sequence_range is_bytes lower upper n 0 (omega arith),
      frames_from-Received tag sequence bytes mtu s tag_size tag_bytes v.sequence_pos
          w.sequence_range is_bytes lower upper n 0 (omega arith),
      subst (λ (k : ℕ). Numbered tag sequence (length bytes) k 0 frames) (sym size)
          (frames_from-Numbered tag sequence bytes mtu s tag_size tag_bytes v.sequence_pos
            w.sequence_range is_bytes lower upper n 0 (omega arith)),
      payloads-frames_from tag sequence bytes mtu s tag_size tag_bytes v.sequence_pos
            w.sequence_range is_bytes lower upper n 0 (omega arith)
          ∙ ap (λ (k : ℕ). drop k bytes) nothing_before,
      omega (arith, size, some_frame),
      omega (arith, size, limit),
    )

fragment_loop-pos :
    (frame_at : ℕ → DataFrame) (mtu n index : ℕ) {sent : List Bytes}
    → 0 < n
    → fragment_loop frame_at mtu n index ≡ success sent
    → 0 < length sent
unfolding fragment_loop
fragment_loop-pos frame_at mtu zero index h e = absurd (omega arith)
fragment_loop-pos frame_at mtu (suc n) index h e =
    let (encoded, e0, e1) =
      >>=-eq_success (or_fail (encode_frame (frame_at index) mtu) frame_encode_failed) _ e in
    let (rest, e2, e3) = >>=-eq_success (fragment_loop frame_at mtu n (index + 1)) _ e1 in
    let joined = success-injective e3 in
    subst (λ (l : List Bytes). 0 < length l) joined (omega arith)

-- A post that is fragmented at all has a first datagram.
pub fragment_post-some :
    (p : PostPayload) (mtu : ℕ) {sent : List Bytes}
    → fragment_post p mtu ≡ success sent
    → 0 < length sent
unfolding fragment_post
fragment_post-some p mtu e =
    let (s, e0) = reject-eq_success (not (is_supported_mtu mtu)) invalid_mtu _ e in
    let (logical, e1, e2) = >>=-eq_success (or_fail (encode_post p) post_encode_failed) _ e0 in
    let n = expected_count (length logical) (frame_payload_capacity mtu) in
    let (c, e3) = reject-eq_success (n == 0 || ltb maximum_fragments n) too_many_fragments _ e2 in
    fragment_loop-pos
      (fragment_frame (message_tag p.message_id) p.sender_sequence logical
        (frame_payload_capacity mtu) n)
      mtu n 0 (ground (arith, c)) e3
