-- ===== src/Protocol/Reassembler/Correct.antt =====
-- What a receiver may rely on when fragments reach `accept`.
use lora_messenger.Common.{
  ℕ, ◌+◌, ◌<◌, ◌≤◌, ◌≡◌, refl, sym, ◌∙◌, subst, true, false, none, some, List, ◌∷◌, length, nat_eq,
  list_eq, arith, All,
}
use lora_messenger.Core.Result.{success, success-injective}
use lora_messenger.Model.Post.{PostPayload, contains}
use lora_messenger.Model.Post.Valid.Rules.{IsPost}
use lora_messenger.Protocol.Limits.{Bytes, is_supported_mtu, frame_payload_capacity}
use lora_messenger.Protocol.FrameCodec.{DataFrame, expected_count}
use lora_messenger.Protocol.FrameCodec.Counts.{capacity_lem}
use lora_messenger.Protocol.PostCodec.{encode_post, decode_post, message_tag}
use lora_messenger.Protocol.PostCodec.Layout.{IsPostData}
use lora_messenger.Protocol.PostCodec.RoundTrip.{decode_post-encode_post}
use lora_messenger.Protocol.Fragmenter.{fragment_frame, fragment_post}
use lora_messenger.Protocol.Fragmenter.Shares.{count-le, count-pos}
use lora_messenger.Protocol.Fragmenter.Correct.{fragment_post-loop}
use lora_messenger.Protocol.Reassembler.Slots.{Slot, slot_has_key, find_slot, active_count, any_key}
use lora_messenger.Protocol.Reassembler.{accept}
use lora_messenger.Protocol.Reassembler.State.{
  Reassembler, complete, fragment_offset, has_bad_fields, has_bad_size,
}
use lora_messenger.Protocol.Reassembler.Invariant.{IsReassembler, IsSlot}
use lora_messenger.Protocol.Reassembler.Steps.{guards-IsFitting, payload-fits}
use lora_messenger.Protocol.Reassembler.Complete.{
  Arrival, indices, feed, first_deadline, InTime, canonical_frames_loop-fragment_loop,
  feed_complete,
}

-- A valid post at a supported transport size, its bytes and the datagrams it is sent in.
pub record IsSent (p : PostPayload) (mtu : ℕ) (bytes : Bytes) (sent : List Bytes) : Type 0 where
  pub valid : IsPost p
  pub is_data : IsPostData p
  pub supported : is_supported_mtu mtu ≡ true
  pub encoded : encode_post p ≡ success bytes
  pub fragmented : fragment_post p mtu ≡ success sent

-- A reassembler in order, in which nothing of the post is held and a slot is free.
pub record IsAwaiting (p : PostPayload) (mtu : ℕ) (r : Reassembler) : Type 0 where
  pub well_formed : IsReassembler r
  pub mtu_same : r.mtu ≡ mtu
  pub no_slot : find_slot (slot_has_key (message_tag p.message_id) p.sender_sequence) r.slots ≡ none
  pub room : active_count r.slots < 8
  pub unquarantined : any_key r.quarantine (message_tag p.message_id) p.sender_sequence ≡ false

abbrev pub fragment_total : ℕ → Bytes → ℕ
fragment_total mtu bytes = expected_count (length bytes) (frame_payload_capacity mtu)

-- The frames that `fragment_post` makes.
abbrev pub frames_of : PostPayload → ℕ → Bytes → ℕ → DataFrame
frames_of p mtu bytes =
    fragment_frame (message_tag p.message_id) p.sender_sequence bytes (frame_payload_capacity mtu)
      (fragment_total mtu bytes)

-- The fragments of a sent post come to a reassembler that awaits it, in any order and with any
-- repetitions, all before the deadline that the first of them sets. The last missing one is answered
-- with the post, its encoded bytes and the very datagrams that `fragment_post` made.
pub accept-complete :
    (p : PostPayload) (mtu : ℕ) (bytes : Bytes) (sent : List Bytes) (r : Reassembler)
    (arrivals : List Arrival) (i now : ℕ)
    → IsSent p mtu bytes sent
    → IsAwaiting p mtu r
    → All (InTime (fragment_total mtu bytes) (first_deadline arrivals now)) arrivals
    → i < fragment_total mtu bytes
    → now < first_deadline arrivals now
    → contains (indices arrivals) i ≡ false
    → ((j : ℕ) → j < fragment_total mtu bytes → contains (i ∷ indices arrivals) j ≡ true)
    → (accept (feed (frames_of p mtu bytes) r arrivals) (frames_of p mtu bytes i) now).0 ≡ record {
      status = complete;
      completed = some (record { post = p; canonical_post = bytes; canonical_frames = sent });
    }
accept-complete p mtu bytes sent r arrivals i now s v intime l t missing every =
    let (logical, encoded, decoded, lower, upper) = decode_post-encode_post p s.valid s.is_data in
    let same : logical ≡ bytes = success-injective (sym encoded ∙ s.encoded) in
    let low : 46 ≤ length bytes = subst (λ (b : Bytes). 46 ≤ length b) same lower in
    let high : length bytes ≤ 316 = subst (λ (b : Bytes). length b ≤ 316) same upper in
    let cap = capacity_lem mtu s.supported in
    let loop =
      fragment_post-loop p mtu bytes s.supported s.encoded
        (count-pos (length bytes) (frame_payload_capacity mtu) cap.0 low)
        (count-le (length bytes) (frame_payload_capacity mtu) cap.0 (omega arith) high) in
    feed_complete (message_tag p.message_id) p.sender_sequence bytes mtu s.supported low high
      s.valid.sequence_pos r arrivals i now p sent
      (record {
        well_formed = v.well_formed;
        mtu_same = v.mtu_same;
        no_slot = v.no_slot;
        room = v.room;
        unquarantined = v.unquarantined;
      })
      intime l t missing every
      (record {
        decoded = subst (λ (b : Bytes). decode_post (some b) ≡ success p) same decoded;
        own_tag = refl;
        own_sequence = refl;
        own_frames =
            canonical_frames_loop-fragment_loop (frames_of p mtu bytes) mtu
              (fragment_total mtu bytes) 0 sent (sym loop ∙ s.fragmented);
      })

-- A datagram that passes both guards is stored inside the buffers of any slot in order: its bytes end within
-- the slot's bytes and within the message, its length has a place in the slot's lengths, and its bit a
-- place in the 16 bits of the bitmap.
pub fragment-in_bounds :
    (r : Reassembler) (slot : Slot) (frame : DataFrame)
    → IsSlot slot
    → has_bad_fields r frame ≡ false
    → has_bad_size r frame ≡ false
    → (fragment_offset r frame.fragment_index + length frame.payload ≤ length slot.bytes)
      × (fragment_offset r frame.fragment_index + length frame.payload ≤ frame.total_length)
      × (frame.fragment_index < length slot.fragment_lengths)
      × (frame.fragment_index < 16)
fragment-in_bounds r slot frame v fields size =
    let fitting = guards-IsFitting r frame fields size in
    let fits = payload-fits r frame fitting in
    (
      omega (arith, fits, fitting.total_max, v.bytes_size),
      fits,
      omega (arith, fitting.index_lt, fitting.count_max, v.lengths_size),
      omega (arith, fitting.index_lt, fitting.count_max),
    )
