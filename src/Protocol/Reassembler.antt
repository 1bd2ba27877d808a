-- ===== src/Protocol/Reassembler.antt =====
-- src/protocol/reassembler.h and reassembler.cpp: datagrams back to posts.
pub mod State
pub mod Slots
pub mod Bitmap
pub mod SlotHolds
pub mod Table
pub mod Holding
pub mod Accepting
pub mod Delivery
pub mod Authentic
pub mod Complete
pub mod Correct
pub mod Tests
pub mod Invariant
pub mod Steps
pub mod Calls
use lora_messenger.Common.{
  ℕ, zero, suc, ◌+◌, ◌-◌, ◌*◌, ◌%◌, ◌^◌, max, Bool, true, false, not, ◌&&◌, ◌||◌, Option, none,
  some, List, [], ◌∷◌, ◌++◌, length, get_or, set, take, drop, replicate, write_at, ltb, leb, ◌==◌,
  nat_eq, list_eq, if◌then◌else◌,
}
use lora_messenger.Core.Result.{Result, success, failure, ◌>>=◌, ◌>>◌, reject, or_fail}
use lora_messenger.Model.Post.{PostPayload}
use lora_messenger.Protocol.Limits.{
  Bytes, MessageTag, maximum_fragments, is_supported_mtu, frame_header_bytes,
  minimum_encoded_post_bytes, maximum_encoded_post_bytes,
}
use lora_messenger.Protocol.FrameCodec.{
  DataFrame, FrameCodecError, encode_frame, expected_count, expected_payload_size,
}
use lora_messenger.Protocol.PostCodec.{PostCodecError, decode_post, message_tag}
use lora_messenger.Protocol.Reassembler.Slots.{
  Slot, QuarantinedKey, empty_slot, maximum_reassemblies, reassembly_timeout_ticks,
  saturating_deadline, has_fragment, add_fragment, complete_mask, slot_has_key, is_free, find_slot,
  active_count, expire_slots, clear_slots, any_key, expire_keys, quarantine_key,
}
use lora_messenger.Protocol.Reassembler.State.{
  ReassemblyResult, Reassembler, expire, status_only, has_bad_fields, has_bad_size, open_slot,
  with_slot, give_up_slot, fragment_offset, canonical_frame, canonical_frames_loop,
  capacity_exceeded, complete, conflict, duplicate_fragment, fragment_accepted, invalid_post,
  quarantined,
}

-- The post that the bytes are, if it belongs to the slot's key.
unfoldable pub belongs : Slot → Result PostPayload PostCodecError → Option PostPayload
belongs slot (failure error) = none
belongs slot (success post) =
    if not (message_tag post.message_id == slot.tag)
      || not (post.sender_sequence == slot.sender_sequence)
    then none
    else some post

-- The end of `finish`, with the frames encoded again.
unfoldable pub finish_frames :
    Reassembler
    → ℕ
    → Slot
    → PostPayload
    → Bytes
    → Result (List Bytes) FrameCodecError
    → ReassemblyResult × Reassembler
unfolding give_up_slot empty_slot
finish_frames r index slot post canonical (failure error) =
    (status_only invalid_post, give_up_slot r index slot slot.tag slot.sender_sequence)
finish_frames r index slot post canonical (success frames) = (
  record {
    status = complete;
    completed =
        some (record { post = post; canonical_post = canonical; canonical_frames = frames });
  },
  with_slot r index empty_slot,
)

-- The middle of `finish`, with the post that the bytes are.
unfoldable pub finish_post :
    Reassembler → ℕ → Slot → Bytes → Option PostPayload → ReassemblyResult × Reassembler
unfolding give_up_slot canonical_frame canonical_frames_loop finish_frames
finish_post r index slot canonical none =
    (status_only invalid_post, give_up_slot r index slot slot.tag slot.sender_sequence)
finish_post r index slot canonical (some post) =
    finish_frames r index slot post canonical
      (canonical_frames_loop (canonical_frame r slot) r.mtu slot.fragment_count 0)

unfoldable pub finish : Reassembler → ℕ → Slot → ReassemblyResult × Reassembler
unfolding belongs finish_post
finish r index slot =
    let canonical = take slot.total_length slot.bytes in
    finish_post r index slot canonical (belongs slot (decode_post (some canonical)))

-- The slot with the fragment's bytes.
unfoldable pub stored : Reassembler → Slot → DataFrame → Slot
unfolding add_fragment
stored r slot frame = record slot {
  bytes = write_at slot.bytes (fragment_offset r frame.fragment_index) frame.payload;
  fragment_lengths = set slot.fragment_lengths frame.fragment_index (length frame.payload % 2 ^ 16);
  received_bitmap = add_fragment slot.received_bitmap frame.fragment_index;
}

unfoldable pub is_identical : Reassembler → Slot → DataFrame → Bool
is_identical r slot frame =
    get_or slot.fragment_lengths frame.fragment_index 0 == length frame.payload
    && take (length frame.payload) (drop (fragment_offset r frame.fragment_index) slot.bytes)
      == frame.payload

-- The rest of `accept`, with the slot of the message.
unfoldable pub store_fragment : Reassembler → ℕ → Slot → DataFrame → ReassemblyResult × Reassembler
unfolding has_fragment is_identical give_up_slot stored complete_mask finish
store_fragment r index slot frame =
    if has_fragment slot.received_bitmap frame.fragment_index
    then (if is_identical r slot frame
        then (status_only duplicate_fragment, r)
        else (status_only conflict, give_up_slot r index slot frame.tag frame.sender_sequence))
    else (if not ((stored r slot frame).received_bitmap == complete_mask frame.fragment_count)
        then (status_only fragment_accepted, with_slot r index (stored r slot frame))
        else finish (with_slot r index (stored r slot frame)) index (stored r slot frame))

abbrev pub opened : Reassembler → ℕ → Slot → Reassembler
opened r index slot =
    let slots = set r.slots index slot in
    record r { slots = slots; high_water_count = max r.high_water_count (active_count slots) }

-- The first fragment of a message takes the free slot that is given, if any.
unfoldable pub accept_free :
    Reassembler → DataFrame → ℕ → Option (ℕ × Slot) → ReassemblyResult × Reassembler
unfolding active_count open_slot store_fragment
accept_free r frame received_tick none = (status_only capacity_exceeded, r)
accept_free r frame received_tick (some (index, slot)) =
    store_fragment (opened r index (open_slot slot frame received_tick)) index
      (open_slot slot frame received_tick) frame

-- A further fragment goes to the slot of its message.
unfoldable pub accept_found :
    Reassembler → DataFrame → ℕ → Option (ℕ × Slot) → ReassemblyResult × Reassembler
unfolding find_slot give_up_slot store_fragment accept_free
accept_found r frame received_tick none =
    accept_free r frame received_tick (find_slot is_free r.slots)
accept_found r frame received_tick (some (index, slot)) =
    if not (slot.total_length == frame.total_length)
      || not (slot.fragment_count == frame.fragment_count)
    then (status_only conflict, give_up_slot r index slot frame.tag frame.sender_sequence)
    else store_fragment r index slot frame

-- `accept` behind its guards.
unfoldable pub accept_key : Reassembler → DataFrame → ℕ → ReassemblyResult × Reassembler
unfolding find_slot accept_found
accept_key r frame received_tick =
    accept_found r frame received_tick
      (find_slot (slot_has_key frame.tag frame.sender_sequence) r.slots)

-- `is_quarantined` drops the keys that have expired first.
abbrev pub fresh_keys : ℕ → Reassembler → Reassembler
fresh_keys now r = record r { quarantine = expire_keys now r.quarantine }

unfoldable pub accept_live : Reassembler → DataFrame → ℕ → ReassemblyResult × Reassembler
unfolding has_bad_fields has_bad_size any_key expire_keys accept_key
accept_live r frame received_tick =
    if has_bad_fields r frame
    then (status_only invalid_post, r)
    else (if has_bad_size r frame
        then (status_only invalid_post, r)
        else (if any_key (fresh_keys received_tick r).quarantine frame.tag frame.sender_sequence
            then (status_only quarantined, fresh_keys received_tick r)
            else accept_key (fresh_keys received_tick r) frame received_tick))

unfoldable pub accept : Reassembler → DataFrame → ℕ → ReassemblyResult × Reassembler
unfolding expire accept_live
accept r frame received_tick = accept_live (expire received_tick r).0 frame received_tick

unfoldable pub clear : Reassembler → Reassembler
unfolding clear_slots
clear r = record r { slots = clear_slots r.slots; quarantine = [] }
