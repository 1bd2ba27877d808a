-- ===== src/Protocol/Reassembler/Invariant.antt =====
-- What every call of the reassembler keeps: the sizes of its tables and buffers.
use lora_messenger.Common.{
  ℕ, zero, suc, ◌-◌, ◌^◌, ◌<◌, ◌≤◌, ◌≡◌, ◌≢◌, refl, ap, ◌∙◌, Bool, true, false, Bool-cases, inl,
  inr, some, List, [], ◌∷◌, length, drop, set, All, nat_eq, arith, length-set, length-replicate,
  length-append, length-drop,
}
use lora_messenger.Protocol.Limits.{MessageTag, frame_header_bytes}
use lora_messenger.Protocol.Reassembler.Slots.{
  Slot, QuarantinedKey, empty_slot, is_expired, complete_mask, active_count, find_slot,
  expire_slots, expire_keys, quarantine_key,
}
use lora_messenger.Protocol.Reassembler.Table.{found, at_head, behind_head}
use lora_messenger.Protocol.Reassembler.State.{Reassembler, expire, with_slot, give_up_slot}

-- A slot in use: a message that is not complete yet.
pub record IsOpen (s : Slot) : Type 0 where
  pub total_min : 46 ≤ s.total_length
  pub total_max : s.total_length ≤ 316
  pub count_pos : 0 < s.fragment_count
  pub count_max : s.fragment_count ≤ 16
  pub bitmap_lt : s.received_bitmap < 2 ^ s.fragment_count

-- A slot: its buffers have their sizes, and a free slot holds nothing.
pub record IsSlot (s : Slot) : Type 0 where
  pub bytes_size : length s.bytes ≡ 316
  pub lengths_size : length s.fragment_lengths ≡ 16
  pub is_empty : s.used ≡ false → s.received_bitmap ≡ 0
  pub is_open : s.used ≡ true → IsOpen s
  pub incomplete : s.used ≡ true → s.received_bitmap ≢ complete_mask s.fragment_count

pub record IsReassembler (r : Reassembler) : Type 0 where
  pub slot_count : length r.slots ≡ 8
  pub all_slots : All IsSlot r.slots
  pub key_count : length r.quarantine ≤ 32
  pub high_covers : active_count r.slots ≤ r.high_water_count
  pub high_max : r.high_water_count ≤ 8
  pub capacity_same : r.fragment_capacity ≡ r.mtu - frame_header_bytes

pub empty_slot-IsSlot : IsSlot empty_slot
unfolding empty_slot
empty_slot-IsSlot = record {
  bytes_size = length-replicate {A = ℕ} 316 0;
  lengths_size = length-replicate {A = ℕ} 16 0;
  is_empty = λ _. refl;
  is_open = λ e. absurd (cc e);
  incomplete = λ e. absurd (cc e);
}

pub All-set {κ} :
    (P : Slot → Type κ) (xs : List Slot) (i : ℕ) (s : Slot) → All P xs → P s → All P (set xs i s)
All-set P [] i s h k = h
All-set P (x ∷ xs) zero s h k = (k, h.1)
All-set P (x ∷ xs) (suc i) s h k = (h.0, All-set P xs i s h.1 k)

pub set-set : (xs : List Slot) (i : ℕ) (s t : Slot) → set (set xs i s) i t ≡ set xs i t
set-set [] i s t = refl
set-set (x ∷ xs) zero s t = refl
set-set (x ∷ xs) (suc i) s t = ap (λ (ys : List Slot). x ∷ ys) (set-set xs i s t)

-- What a search found stands there already.
pub set-found :
    (test : Slot → Bool) (xs : List Slot) (i : ℕ) (s : Slot)
    → find_slot test xs ≡ some (i, s)
    → set xs i s ≡ xs
unfolding find_slot
set-found test [] i s e = refl
set-found test (x ∷ xs) i s e = elim (found test x xs i s e) [
  | at_head t p q ↦ rw (p, q) refl
  | behind_head j t p q ↦ rw p (ap (λ (ys : List Slot). x ∷ ys) (set-found test xs j s q))
]

pub active_count-le : (xs : List Slot) → active_count xs ≤ length xs
unfolding active_count
active_count-le [] = omega arith
active_count-le (x ∷ xs) = ground (arith, active_count-le xs)

-- No more slots are used than when this one is.
pub active_count-set :
    (xs : List Slot) (i : ℕ) (s t : Slot)
    → s.used ≡ true
    → active_count (set xs i t) ≤ active_count (set xs i s)
unfolding active_count
active_count-set [] i s t e = omega arith
active_count-set (x ∷ xs) zero s t e = ground (arith, e)
active_count-set (x ∷ xs) (suc i) s t e = ground (arith, active_count-set xs i s t e)

-- A slot of the table is replaced by another, and the keys by others.
pub record IsPlace (r : Reassembler) (index : ℕ) (slot : Slot) : Type 0 where
  pub stands : set r.slots index slot ≡ r.slots
  pub in_use : slot.used ≡ true

pub with_slot-IsReassembler :
    (r : Reassembler) (index : ℕ) (slot new : Slot)
    → IsReassembler r
    → IsPlace r index slot
    → IsSlot new
    → IsReassembler (with_slot r index new)
with_slot-IsReassembler r index slot new v place w = record {
  slot_count = length-set r.slots index new ∙ v.slot_count;
  all_slots = All-set IsSlot r.slots index new v.all_slots w;
  key_count = v.key_count;
  high_covers = omega (
    arith,
    active_count-set r.slots index slot new place.in_use,
    ap active_count place.stands,
    v.high_covers,
  );
  high_max = v.high_max;
  capacity_same = v.capacity_same;
}

quarantine_key-length :
    (keys : List QuarantinedKey) (tag : MessageTag) (sequence deadline : ℕ)
    → length keys ≤ 32
    → length (quarantine_key keys tag sequence deadline) ≤ 32
unfolding quarantine_key
quarantine_key-length keys tag sequence deadline h =
    let key : QuarantinedKey = record {
      tag = tag;
      sender_sequence = sequence;
      deadline = deadline;
    } in
    ground (
      arith,
      h,
      length-drop 1 keys,
      length-append (drop 1 keys) (key ∷ []),
      length-append keys (key ∷ []),
    )

pub give_up_slot-IsReassembler :
    (r : Reassembler) (index : ℕ) (old slot : Slot) (tag : MessageTag) (sequence : ℕ)
    → IsReassembler r
    → IsPlace r index old
    → IsReassembler (give_up_slot r index slot tag sequence)
unfolding give_up_slot
give_up_slot-IsReassembler r index old slot tag sequence v place =
    let w = with_slot-IsReassembler r index old empty_slot v place empty_slot-IsSlot in
    record {
      slot_count = w.slot_count;
      all_slots = w.all_slots;
      key_count = quarantine_key-length r.quarantine tag sequence slot.deadline v.key_count;
      high_covers = w.high_covers;
      high_max = w.high_max;
      capacity_same = w.capacity_same;
    }

expire_slots-length : (now : ℕ) (xs : List Slot) → length (expire_slots now xs).0 ≡ length xs
unfolding expire_slots
expire_slots-length now [] = refl
expire_slots-length now (x ∷ xs) = ground (arith, expire_slots-length now xs)

pub expire_slots-IsSlot :
    (now : ℕ) (xs : List Slot) → All IsSlot xs → All IsSlot (expire_slots now xs).0
unfolding expire_slots
expire_slots-IsSlot now [] h = h
expire_slots-IsSlot now (x ∷ xs) h = elim (Bool-cases (is_expired now x)) [
  | inl e ↦ rw e (empty_slot-IsSlot, expire_slots-IsSlot now xs h.1)
  | inr e ↦ rw e (h.0, expire_slots-IsSlot now xs h.1)
]

expire_slots-active_count :
    (now : ℕ) (xs : List Slot) → active_count (expire_slots now xs).0 ≤ active_count xs
unfolding expire_slots active_count empty_slot
expire_slots-active_count now [] = omega arith
expire_slots-active_count now (x ∷ xs) = ground (arith, expire_slots-active_count now xs)

expire_keys-length :
    (now : ℕ) (keys : List QuarantinedKey) → length (expire_keys now keys) ≤ length keys
unfolding expire_keys
expire_keys-length now [] = omega arith
expire_keys-length now (key ∷ keys) = ground (arith, expire_keys-length now keys)

pub expire-IsReassembler :
    (now : ℕ) (r : Reassembler) → IsReassembler r → IsReassembler (expire now r).0
unfolding expire
expire-IsReassembler now r v = record {
  slot_count = expire_slots-length now r.slots ∙ v.slot_count;
  all_slots = expire_slots-IsSlot now r.slots v.all_slots;
  key_count = omega (arith, expire_keys-length now r.quarantine, v.key_count);
  high_covers = omega (arith, expire_slots-active_count now r.slots, v.high_covers);
  high_max = v.high_max;
  capacity_same = v.capacity_same;
}

pub fresh_keys-IsReassembler :
    (now : ℕ) (r : Reassembler)
    → IsReassembler r
    → IsReassembler (record r { quarantine = expire_keys now r.quarantine })
fresh_keys-IsReassembler now r v = record {
  slot_count = v.slot_count;
  all_slots = v.all_slots;
  key_count = omega (arith, expire_keys-length now r.quarantine, v.key_count);
  high_covers = v.high_covers;
  high_max = v.high_max;
  capacity_same = v.capacity_same;
}
