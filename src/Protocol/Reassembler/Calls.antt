-- ===== src/Protocol/Reassembler/Calls.antt =====
-- Opening, receiving, expiring and clearing keep the tables of the reassembler in order.

use lora_messenger.Common.{
  nat_beq_iff, ℕ, zero, suc, ◌<◌, ◌≡◌, refl, sym, ap, ◌∙◌, false, not, ◌||◌, Bool-cases, inl, inr,
  Option, none, some, List, [], ◌∷◌, length, set, replicate, All, ◌==◌, nat_eq, list_eq, arith,
  length-set,
}
use lora_messenger.Protocol.FrameCodec.{DataFrame}
use lora_messenger.Protocol.Reassembler.Slots.{
  Slot, empty_slot, slot_has_key, is_free, active_count, find_slot, clear_slots, any_key,
}
use lora_messenger.Protocol.Reassembler.Table.{find_slot-All, find_slot-test}
use lora_messenger.Protocol.Reassembler.{
  clear, opened, accept_free, accept_found, accept_key, accept_live, accept, fresh_keys,
}
use lora_messenger.Protocol.Reassembler.State.{
  Reassembler, create_reassembler, expire, has_bad_fields, has_bad_size, open_slot,
}
use lora_messenger.Protocol.Reassembler.Steps.{
  IsFitting, guards-IsFitting, power_pos, mask_pos, store_fragment-IsReassembler,
}
use lora_messenger.Protocol.Reassembler.Invariant.{
  IsSlot, IsReassembler, IsPlace, empty_slot-IsSlot, All-set, set-set, set-found, active_count-le,
  give_up_slot-IsReassembler, expire-IsReassembler, fresh_keys-IsReassembler,
}

opened-IsSlot :
    (r : Reassembler) (slot : Slot) (frame : DataFrame) (now : ℕ)
    → IsFitting r frame
    → IsSlot slot
    → slot.used ≡ false
    → IsSlot (open_slot slot frame now)
unfolding open_slot
opened-IsSlot r slot frame now fitting v free =
    let many : 0 < frame.fragment_count = omega (arith, fitting.index_lt) in
    record {
      bytes_size = v.bytes_size;
      lengths_size = v.lengths_size;
      is_empty = λ e. absurd (cc e);
      is_open = λ e. record {
        total_min = fitting.total_min;
        total_max = fitting.total_max;
        count_pos = many;
        count_max = fitting.count_max;
        bitmap_lt = omega (arith, v.is_empty free, power_pos frame.fragment_count);
      };
      incomplete = λ e f.
          omega (arith, f, v.is_empty free, mask_pos frame.fragment_count many fitting.count_max);
    }

-- A slot is opened for a message.
opened-IsReassembler :
    (r : Reassembler) (index : ℕ) (slot : Slot)
    → IsReassembler r
    → IsSlot slot
    → IsReassembler (opened r index slot)
opened-IsReassembler r index slot v w = record {
  slot_count = length-set r.slots index slot ∙ v.slot_count;
  all_slots = All-set IsSlot r.slots index slot v.all_slots w;
  key_count = v.key_count;
  high_covers = omega arith;
  high_max = omega (
    arith,
    active_count-le (set r.slots index slot),
    length-set r.slots index slot,
    v.slot_count,
    v.high_max,
  );
  capacity_same = v.capacity_same;
}

free_slot :
    (xs : List Slot) (index : ℕ) (slot : Slot)
    → find_slot is_free xs ≡ some (index, slot)
    → All IsSlot xs
    → IsSlot slot × (slot.used ≡ false)
free_slot xs index slot e all =
    let is = (find_slot-test is_free xs index slot e).0 in
    (find_slot-All is_free IsSlot xs index slot e all, ground (arith, is))

accept_free-IsReassembler :
    (r : Reassembler) (frame : DataFrame) (now : ℕ) (o : Option (ℕ × Slot))
    → o ≡ find_slot is_free r.slots
    → IsReassembler r
    → IsFitting r frame
    → IsReassembler (accept_free r frame now o).1
unfolding accept_free open_slot
accept_free-IsReassembler r frame now none e v fitting = v
accept_free-IsReassembler r frame now (some (index, slot)) e v fitting =
    let (w, free) = free_slot r.slots index slot (sym e) v.all_slots in
    let new = open_slot slot frame now in
    let is = opened-IsSlot r slot frame now fitting w free in
    store_fragment-IsReassembler (opened r index new) index new frame
      (opened-IsReassembler r index new v is)
      (record { stands = set-set r.slots index new new; in_use = refl }) is fitting.index_lt refl

accept_found-IsReassembler :
    (r : Reassembler) (frame : DataFrame) (now : ℕ) (o : Option (ℕ × Slot))
    → o ≡ find_slot (slot_has_key frame.tag frame.sender_sequence) r.slots
    → IsReassembler r
    → IsFitting r frame
    → IsReassembler (accept_found r frame now o).1
unfolding accept_found
accept_found-IsReassembler r frame now none e v fitting =
    accept_free-IsReassembler r frame now (find_slot is_free r.slots) refl v fitting
accept_found-IsReassembler r frame now (some (index, slot)) e v fitting =
    let test = slot_has_key frame.tag frame.sender_sequence in
    let keyed = (find_slot-test test r.slots index slot (sym e)).0 in
    let place : IsPlace r index slot = record {
      stands = set-found test r.slots index slot (sym e);
      in_use = ground (arith, keyed);
    } in
    elim (Bool-cases (
      not (slot.total_length == frame.total_length)
      || not (slot.fragment_count == frame.fragment_count))) [
        | inl differs ↦
            rw differs
              (give_up_slot-IsReassembler r index slot slot frame.tag frame.sender_sequence v place)
        | inr same ↦ rw same (
            store_fragment-IsReassembler r index slot frame v place
              (find_slot-All test IsSlot r.slots index slot (sym e) v.all_slots) fitting.index_lt
              (ground (arith, same, nat_beq_iff slot.fragment_count frame.fragment_count)))
      ]

accept_live-IsReassembler :
    (r : Reassembler) (frame : DataFrame) (now : ℕ)
    → IsReassembler r
    → IsReassembler (accept_live r frame now).1
unfolding accept_live accept_key
accept_live-IsReassembler r frame now v = elim (Bool-cases (has_bad_fields r frame)) [
  | inl bad ↦ rw bad v
  | inr fields ↦ elim (Bool-cases (has_bad_size r frame)) [
    | inl bad ↦ rw (fields, bad) v
    | inr size ↦
        elim (Bool-cases (any_key (fresh_keys now r).quarantine frame.tag frame.sender_sequence)) [
          | inl quarantined ↦ rw (fields, size, quarantined) (fresh_keys-IsReassembler now r v)
          | inr fresh ↦
              rw (fields, size, fresh)
                (accept_found-IsReassembler (fresh_keys now r) frame now
                  (find_slot (slot_has_key frame.tag frame.sender_sequence) r.slots) refl
                  (fresh_keys-IsReassembler now r v)
                  (guards-IsFitting (fresh_keys now r) frame fields size))
        ]
  ]
]

-- Whatever datagram comes, `accept` keeps a reassembler in order: the sizes of its tables and buffers, at
-- most 32 quarantined keys, and open slots that are not complete.
pub accept-IsReassembler :
    (r : Reassembler) (frame : DataFrame) (now : ℕ)
    → IsReassembler r
    → IsReassembler (accept r frame now).1
unfolding accept
accept-IsReassembler r frame now v =
    accept_live-IsReassembler (expire now r).0 frame now (expire-IsReassembler now r v)

All-replicate {κ} : (P : Slot → Type κ) (n : ℕ) (s : Slot) → P s → All P (replicate n s)
All-replicate P zero s h = tt
All-replicate P (suc n) s h = (h, All-replicate P n s h)

pub create_reassembler-IsReassembler : (mtu : ℕ) → IsReassembler (create_reassembler mtu)
unfolding create_reassembler empty_slot active_count
create_reassembler-IsReassembler mtu = record {
  slot_count = refl;
  all_slots = All-replicate IsSlot 8 empty_slot empty_slot-IsSlot;
  key_count = omega arith;
  high_covers = omega arith;
  high_max = omega arith;
  capacity_same = refl;
}

clear_slots-IsSlot : (xs : List Slot) → All IsSlot (clear_slots xs)
unfolding clear_slots
clear_slots-IsSlot [] = tt
clear_slots-IsSlot (x ∷ xs) = (empty_slot-IsSlot, clear_slots-IsSlot xs)

length-clear_slots : (xs : List Slot) → length (clear_slots xs) ≡ length xs
unfolding clear_slots
length-clear_slots [] = refl
length-clear_slots (x ∷ xs) = ap suc (length-clear_slots xs)

clear_slots-active_count : (xs : List Slot) → active_count (clear_slots xs) ≡ 0
unfolding clear_slots active_count empty_slot
clear_slots-active_count [] = refl
clear_slots-active_count (x ∷ xs) = clear_slots-active_count xs

pub clear-IsReassembler : (r : Reassembler) → IsReassembler r → IsReassembler (clear r)
unfolding clear
clear-IsReassembler r v = record {
  slot_count = length-clear_slots r.slots ∙ v.slot_count;
  all_slots = clear_slots-IsSlot r.slots;
  key_count = omega arith;
  high_covers = omega (arith, clear_slots-active_count r.slots);
  high_max = v.high_max;
  capacity_same = v.capacity_same;
}
