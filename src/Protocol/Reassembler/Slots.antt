-- ===== src/Protocol/Reassembler/Slots.antt =====
-- The slots of src/protocol/reassembler.cpp and its list of quarantined keys.
use lora_messenger.Common.{
  ℕ, suc, ◌+◌, ◌-◌, ◌/◌, ◌%◌, ◌^◌, Bool, false, not, ◌&&◌, ◌||◌, Option, none, some, List, [], ◌∷◌,
  ◌++◌, length, drop, replicate, ltb, leb, ◌==◌, nat_eq, list_eq, if◌then◌else◌,
}
use lora_messenger.Protocol.Limits.{
  Bytes, MessageTag, maximum_fragments, maximum_encoded_post_bytes,
}

abbrev pub maximum_reassemblies : ℕ
maximum_reassemblies = 8

abbrev pub maximum_quarantined_keys : ℕ
maximum_quarantined_keys = 32

abbrev pub reassembly_timeout_ticks : ℕ
reassembly_timeout_ticks = 60000

abbrev pub tick_maximum : ℕ
tick_maximum = 2 ^ 64 - 1

unfoldable pub saturating_deadline : ℕ → ℕ → ℕ
saturating_deadline start duration =
    if ltb (tick_maximum - duration) start then tick_maximum else start + duration

abbrev pub deadline_reached : ℕ → ℕ → Bool
deadline_reached now deadline = leb deadline now

abbrev pub same_key : MessageTag → ℕ → MessageTag → ℕ → Bool
same_key left_tag left_sequence right_tag right_sequence =
    left_tag == right_tag && left_sequence == right_sequence

pub record Slot : Type 0 where
  pub used : Bool
  pub tag : MessageTag
  pub sender_sequence : ℕ
  pub total_length : ℕ
  pub fragment_count : ℕ
  pub received_bitmap : ℕ
  pub deadline : ℕ
  pub bytes : Bytes
  pub fragment_lengths : List ℕ

-- `Slot{}`
unfoldable pub empty_slot : Slot
empty_slot = record {
  used = false;
  tag = replicate 8 0;
  sender_sequence = 0;
  total_length = 0;
  fragment_count = 0;
  received_bitmap = 0;
  deadline = 0;
  bytes = replicate maximum_encoded_post_bytes 0;
  fragment_lengths = replicate maximum_fragments 0;
}

-- `(received_bitmap & (1 << index)) != 0`
unfoldable pub has_fragment : ℕ → ℕ → Bool
has_fragment bitmap index = bitmap / 2 ^ index % 2 == 1

-- `received_bitmap | (1 << index)` where that bit is clear, so that `|` adds it.
unfoldable pub add_fragment : ℕ → ℕ → ℕ
add_fragment bitmap index = (bitmap + 2 ^ index) % 2 ^ 16

-- A one for every fragment.
unfoldable pub complete_mask : ℕ → ℕ
complete_mask fragment_count =
    if fragment_count == maximum_fragments then 2 ^ 16 - 1 else (2 ^ fragment_count - 1) % 2 ^ 16

abbrev pub slot_has_key : MessageTag → ℕ → Slot → Bool
slot_has_key tag sender_sequence slot =
    slot.used && same_key slot.tag slot.sender_sequence tag sender_sequence

abbrev pub is_free : Slot → Bool
is_free slot = not slot.used

abbrev pub behind : Option (ℕ × Slot) → Option (ℕ × Slot)
behind none = none
behind (some (index, found)) = some (suc index, found)

-- `std::find_if`: the position found and what stands there.
unfoldable pub find_slot : (Slot → Bool) → List Slot → Option (ℕ × Slot)
find_slot test [] = none
find_slot test (slot ∷ rest) = if test slot then some (0, slot) else behind (find_slot test rest)

unfoldable pub active_count : List Slot → ℕ
active_count [] = 0
active_count (slot ∷ rest) = if slot.used then suc (active_count rest) else active_count rest

abbrev pub is_expired : ℕ → Slot → Bool
is_expired now slot = slot.used && deadline_reached now slot.deadline

-- The loop of `expire` over the slots, with the number of those that it clears.
unfoldable pub expire_slots : ℕ → List Slot → List Slot × ℕ
unfolding empty_slot
expire_slots now [] = ([], 0)
expire_slots now (slot ∷ rest) =
    let (slots, expired) = expire_slots now rest in
    if is_expired now slot then (empty_slot ∷ slots, suc expired) else (slot ∷ slots, expired)

unfoldable pub clear_slots : List Slot → List Slot
unfolding empty_slot
clear_slots [] = []
clear_slots (slot ∷ rest) = empty_slot ∷ clear_slots rest

pub record QuarantinedKey : Type 0 where
  pub tag : MessageTag
  pub sender_sequence : ℕ
  pub deadline : ℕ

unfoldable pub any_key : List QuarantinedKey → MessageTag → ℕ → Bool
any_key [] tag sender_sequence = false
any_key (key ∷ rest) tag sender_sequence =
    same_key key.tag key.sender_sequence tag sender_sequence || any_key rest tag sender_sequence

-- The `remove_if` of the keys whose deadline is reached.
unfoldable pub expire_keys : ℕ → List QuarantinedKey → List QuarantinedKey
expire_keys now [] = []
expire_keys now (key ∷ rest) =
    if deadline_reached now key.deadline then expire_keys now rest else key ∷ expire_keys now rest

unfoldable pub quarantine_key : List QuarantinedKey → MessageTag → ℕ → ℕ → List QuarantinedKey
unfolding any_key
quarantine_key keys tag sender_sequence deadline =
    if any_key keys tag sender_sequence
    then keys
    else (if leb maximum_quarantined_keys (length keys) then drop 1 keys else keys)
      ++ (record { tag = tag; sender_sequence = sender_sequence; deadline = deadline } ∷ [])
