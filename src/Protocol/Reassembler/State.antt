-- ===== src/Protocol/Reassembler/State.antt =====
-- src/protocol/reassembler.h and reassembler.cpp: the table of slots, the guards of `accept`, and the
-- frames that a slot holds.
use lora_messenger.Common.{
  ℕ, zero, suc, ◌+◌, ◌-◌, ◌*◌, ◌%◌, Bool, true, not, ◌||◌, Option, none, List, [], ◌∷◌, length,
  get_or, set, take, drop, replicate, ltb, leb, ◌==◌, nat_eq, list_eq,
}
use lora_messenger.Core.Result.{Result, success, ◌>>=◌}
use lora_messenger.Model.Post.{PostPayload}
use lora_messenger.Protocol.Limits.{
  Bytes, MessageTag, maximum_fragments, is_supported_mtu, frame_header_bytes,
  minimum_encoded_post_bytes, maximum_encoded_post_bytes,
}
use lora_messenger.Protocol.FrameCodec.{
  DataFrame, FrameCodecError, encode_frame, expected_count, expected_payload_size,
}
use lora_messenger.Protocol.Reassembler.Slots.{
  Slot, QuarantinedKey, empty_slot, maximum_reassemblies, reassembly_timeout_ticks,
  saturating_deadline, expire_slots, expire_keys, quarantine_key,
}

pub data ReassemblyStatus : Type 0 where
  fragment_accepted duplicate_fragment complete capacity_exceeded conflict : ReassemblyStatus
  quarantined invalid_post : ReassemblyStatus

pub record CompletedPost : Type 0 where
  pub post : PostPayload
  pub canonical_post : Bytes
  pub canonical_frames : List Bytes

pub record ReassemblyResult : Type 0 where
  pub status : ReassemblyStatus
  pub completed : Option CompletedPost

pub record Reassembler : Type 0 where
  pub mtu : ℕ
  pub fragment_capacity : ℕ
  pub slots : List Slot
  pub quarantine : List QuarantinedKey
  pub high_water_count : ℕ

unfoldable pub create_reassembler : ℕ → Reassembler
unfolding empty_slot
create_reassembler mtu = record {
  mtu = mtu;
  fragment_capacity = mtu - frame_header_bytes;
  slots = replicate maximum_reassemblies empty_slot;
  quarantine = [];
  high_water_count = 0;
}

-- The reassembler afterwards, and how many slots expired.
unfoldable pub expire : ℕ → Reassembler → Reassembler × ℕ
unfolding expire_slots expire_keys
expire now r =
    let (slots, expired) = expire_slots now r.slots in
    (record r { slots = slots; quarantine = expire_keys now r.quarantine }, expired)

abbrev pub status_only : ReassemblyStatus → ReassemblyResult
status_only status = record { status = status; completed = none }

-- The first guard of `accept`.
unfoldable pub has_bad_fields : Reassembler → DataFrame → Bool
has_bad_fields r frame =
    not (is_supported_mtu r.mtu)
    || frame.sender_sequence == 0
    || frame.fragment_count == 0
    || ltb maximum_fragments frame.fragment_count
    || leb frame.fragment_count frame.fragment_index
    || ltb frame.total_length minimum_encoded_post_bytes
    || ltb maximum_encoded_post_bytes frame.total_length
    || r.fragment_capacity == 0

-- The second guard.
unfoldable pub has_bad_size : Reassembler → DataFrame → Bool
unfolding expected_count expected_payload_size
has_bad_size r frame =
    not (expected_count frame.total_length r.fragment_capacity == frame.fragment_count)
    || not (
        length frame.payload
        == expected_payload_size frame.fragment_index frame.fragment_count frame.total_length
            r.fragment_capacity)

-- The fields that a free slot gets for the first fragment of a message.
unfoldable pub open_slot : Slot → DataFrame → ℕ → Slot
unfolding saturating_deadline
open_slot slot frame received_tick = record slot {
  used = true;
  tag = frame.tag;
  sender_sequence = frame.sender_sequence;
  total_length = frame.total_length;
  fragment_count = frame.fragment_count;
  deadline = saturating_deadline received_tick reassembly_timeout_ticks;
}

abbrev pub with_slot : Reassembler → ℕ → Slot → Reassembler
with_slot r index slot = record r { slots = set r.slots index slot }

-- The slot is cleared and its key is quarantined until the slot's deadline.
unfoldable pub give_up_slot : Reassembler → ℕ → Slot → MessageTag → ℕ → Reassembler
unfolding empty_slot quarantine_key
give_up_slot r index slot tag sender_sequence = record r {
  slots = set r.slots index empty_slot;
  quarantine = quarantine_key r.quarantine tag sender_sequence slot.deadline;
}

abbrev pub fragment_offset : Reassembler → ℕ → ℕ
fragment_offset r index = index * r.fragment_capacity

-- The frame that the slot holds of a fragment, and the loop that encodes them again.
unfoldable pub canonical_frame : Reassembler → Slot → ℕ → DataFrame
canonical_frame r slot index = record {
  tag = slot.tag;
  sender_sequence = slot.sender_sequence;
  fragment_index = index % 256;
  fragment_count = slot.fragment_count;
  total_length = slot.total_length;
  payload = take (get_or slot.fragment_lengths index 0) (drop (fragment_offset r index) slot.bytes);
}

unfoldable pub canonical_frames_loop :
    (ℕ → DataFrame) → ℕ → ℕ → ℕ → Result (List Bytes) FrameCodecError
canonical_frames_loop frame_at mtu zero index = success []
canonical_frames_loop frame_at mtu (suc n) index = do
  encoded ← encode_frame (frame_at index) mtu
  rest ← canonical_frames_loop frame_at mtu n (index + 1)
  success (encoded ∷ rest)
