-- ===== src/Protocol/Reassembler/Delivery.antt =====
-- From the first fragment of a message to the last: the reassembler answers with the post.
use native.Mathlib.Nat.{zero-div, one-le-pow}
use lora_messenger.Common.{
  ℕ, suc, ◌^◌, ◌<◌, ◌≤◌, ◌≡◌, refl, sym, ap, ◌∙◌, subst, true, false, Bool-cases, inl, inr, none,
  some, List, [], ◌∷◌, length, nat_eq, list_eq, list_beq_iff, nat_beq_iff, arith,
}
use lora_messenger.Model.Post.{PostPayload, contains}
use lora_messenger.Protocol.Limits.{Bytes, MessageTag, is_supported_mtu, frame_payload_capacity}
use lora_messenger.Protocol.FrameCodec.{DataFrame}
use lora_messenger.Protocol.FrameCodec.Counts.{capacity_lem}
use lora_messenger.Protocol.Fragmenter.{fragment_frame}
use lora_messenger.Protocol.Reassembler.Slots.{
  Slot, slot_has_key, is_free, find_slot, active_count, any_key, expire_slots, expire_keys,
  has_fragment, saturating_deadline, reassembly_timeout_ticks,
}
use lora_messenger.Protocol.Reassembler.Table.{
  find_slot-set, find_slot-set_only, find_slot-test, find_slot-All, find_slot-expire_none,
  find_slot-expire_free, any_key-expire,
}
use lora_messenger.Protocol.Reassembler.{
  opened, stored, store_fragment, accept_free, accept_found, accept_key, accept,
}
use lora_messenger.Protocol.Reassembler.State.{
  Reassembler, ReassemblyResult, fragment_accepted, duplicate_fragment, status_only, open_slot,
  expire,
}
use lora_messenger.Protocol.Reassembler.Invariant.{IsSlot, IsReassembler, expire_slots-IsSlot}
use lora_messenger.Protocol.Reassembler.SlotHolds.{SlotHolds, count, frame_of, stored-SlotHolds}
use lora_messenger.Protocol.Reassembler.Holding.{
  IsPostOf, completion, store_fragment-again, store_fragment-more, store_fragment-last,
}
use lora_messenger.Protocol.Reassembler.Accepting.{
  prepared, Holding, Holding-prepared, accept-prepared, frame-fields,
}

has_fragment-none : (i : ℕ) → has_fragment 0 i ≡ false
unfolding has_fragment
has_fragment-none i = rw (zero-div (2 ^ i)) refl

accept_key-found :
    (r : Reassembler) (frame : DataFrame) (now index : ℕ) (slot : Slot)
    → find_slot (slot_has_key frame.tag frame.sender_sequence) r.slots ≡ some (index, slot)
    → slot.total_length ≡ frame.total_length
    → slot.fragment_count ≡ frame.fragment_count
    → accept_key r frame now ≡ store_fragment r index slot frame
unfolding accept_key accept_found
accept_key-found r frame now index slot e total number =
    ap (accept_found r frame now) e
    ∙ ground (
      arith,
      nat_beq_iff slot.total_length frame.total_length,
      nat_beq_iff slot.fragment_count frame.fragment_count,
    )

accept_key-free :
    (r : Reassembler) (frame : DataFrame) (now index : ℕ) (slot : Slot)
    → find_slot (slot_has_key frame.tag frame.sender_sequence) r.slots ≡ none
    → find_slot is_free r.slots ≡ some (index, slot)
    → accept_key r frame now
      ≡ store_fragment
          (opened r index (open_slot slot frame now))
          index
          (open_slot slot frame now)
          frame
unfolding accept_key accept_found accept_free
accept_key-free r frame now index slot e free =
    ap (accept_found r frame now) e ∙ ap (accept_free r frame now) free

-- A table that is not full has a free slot.
free_slot :
    (xs : List Slot)
    → active_count xs < length xs
    → (index : ℕ) × (slot : Slot) × (find_slot is_free xs ≡ some (index, slot))
unfolding active_count find_slot
free_slot [] h = absurd (omega arith)
free_slot (x ∷ xs) h = elim (Bool-cases x.used) [
  | inr free ↦ (0, x, rw free refl)
  | inl busy ↦
      let (index, slot, e) = free_slot xs (ground (arith, h, busy)) in
      (suc index, slot, rw (busy, e) refl)
]

module _ (tag : MessageTag) (sequence : ℕ) (logical : Bytes) (mtu : ℕ)
    (supported : is_supported_mtu mtu ≡ true) (lower : 46 ≤ length logical)
    (upper : length logical ≤ 316) (positive : 0 < sequence) where
  abbrev total_count : ℕ
  total_count = count tag sequence logical mtu supported lower upper

  abbrev frame_at : ℕ → DataFrame
  frame_at = frame_of tag sequence logical mtu supported lower upper

  abbrev Holds : Slot → List ℕ → ℕ → Type 0
  Holds = SlotHolds tag sequence logical mtu supported lower upper

  abbrev pub IsHeld : Reassembler → List ℕ → ℕ → Type 0
  IsHeld = Holding tag sequence logical mtu supported lower upper

  -- `accept` comes down to storing the fragment in a slot of the message.
  pub record Reaches (r : Reassembler) (seen : List ℕ) (deadline now i : ℕ) : Type 0 where
    pub base : Reassembler
    pub held : IsHeld base seen deadline
    pub same : accept r (frame_at i) now ≡ store_fragment base held.index held.slot (frame_at i)

  pub Holding-Reaches :
      (r : Reassembler) (seen : List ℕ) (deadline now i : ℕ)
      → IsHeld r seen deadline
      → now < deadline
      → i < total_count
      → Reaches r seen deadline now i
  unfolding fragment_frame
  Holding-Reaches r seen deadline now i v h l =
      let w =
        Holding-prepared tag sequence logical mtu supported lower upper r seen deadline now h v in
      let (_, _, same_total, same_count, _) =
        frame-fields tag sequence logical mtu supported lower upper i l in
      record {
        base = prepared now r;
        held = w;
        same =
            accept-prepared tag sequence logical mtu supported lower upper r now i positive
              v.mtu_same v.capacity_same w.unquarantined l
            ∙ accept_key-found (prepared now r) (frame_at i) now w.index w.slot w.in_table
                (w.holds.total_same ∙ sym same_total) (w.holds.count_same ∙ sym same_count);
      }

  -- No fragment of the message is there, and a slot is free.
  pub record IsUnseen (r : Reassembler) : Type 0 where
    pub well_formed : IsReassembler r
    pub mtu_same : r.mtu ≡ mtu
    pub no_slot : find_slot (slot_has_key tag sequence) r.slots ≡ none
    pub room : active_count r.slots < 8
    pub unquarantined : any_key r.quarantine tag sequence ≡ false

  opened-Holds :
      (slot : Slot) (now i : ℕ)
      → i < total_count
      → IsSlot slot
      → slot.used ≡ false
      → Holds
          (open_slot slot (frame_at i) now)
          []
          (saturating_deadline now reassembly_timeout_ticks)
  unfolding open_slot fragment_frame contains
  opened-Holds slot now i l v free =
      let (_, _, same_total, same_count, _) =
        frame-fields tag sequence logical mtu supported lower upper i l in
      record {
        used = refl;
        tag_same = refl;
        sequence_same = refl;
        total_same = same_total;
        count_same = same_count;
        deadline_same = refl;
        bytes_size = v.bytes_size;
        lengths_size = v.lengths_size;
        bitmap_lt = omega (arith, v.is_empty free, one-le-pow total_count 2 (omega arith));
        marks = λ j _. ap (λ (b : ℕ). has_fragment b j) (v.is_empty free) ∙ has_fragment-none j;
        lengths = λ j _ e. absurd (cc e);
        agree = λ j k _ e _. absurd (cc e);
      }

  opened-key :
      (slot : Slot) (now i : ℕ) → slot_has_key tag sequence (open_slot slot (frame_at i) now) ≡ true
  unfolding open_slot fragment_frame
  opened-key slot now i = ground (arith, list_beq_iff tag tag, nat_beq_iff sequence sequence)

  pub IsUnseen-Reaches :
      (r : Reassembler) (now i : ℕ)
      → IsUnseen r
      → i < total_count
      → Reaches r [] (saturating_deadline now reassembly_timeout_ticks) now i
  unfolding fragment_frame expire
  IsUnseen-Reaches r now i v l =
      let capacity_same : r.fragment_capacity ≡ frame_payload_capacity mtu =
        omega (arith, v.well_formed.capacity_same, v.mtu_same, capacity_lem mtu supported) in
      let (j, s, room) = free_slot r.slots (omega (arith, v.room, v.well_formed.slot_count)) in
      let (index, slot, free) = find_slot-expire_free now r.slots j s room in
      let slots = (expire_slots now r.slots).0 in
      let (is, inside) = find_slot-test is_free slots index slot free in
      let unused : slot.used ≡ false = ground (arith, is) in
      let is_slot =
        find_slot-All is_free IsSlot slots index slot free
          (expire_slots-IsSlot now r.slots v.well_formed.all_slots) in
      let new = open_slot slot (frame_at i) now in
      let nothing = find_slot-expire_none now tag sequence r.slots v.no_slot in
      let unquarantined =
        any_key-expire now tag sequence (expire_keys now r.quarantine)
          (any_key-expire now tag sequence r.quarantine v.unquarantined) in
      record {
        base = opened (prepared now r) index new;
        held = record {
          mtu_same = v.mtu_same;
          capacity_same = capacity_same;
          index = index;
          slot = new;
          in_table =
              find_slot-set_only (slot_has_key tag sequence) slots index new nothing inside
                (opened-key slot now i);
          holds = opened-Holds slot now i l is_slot unused;
          unquarantined = unquarantined;
        };
        same =
            accept-prepared tag sequence logical mtu supported lower upper r now i positive
              v.mtu_same capacity_same unquarantined l
            ∙ accept_key-free (prepared now r) (frame_at i) now index slot nothing free;
      }

  module _ (r : Reassembler) (seen : List ℕ) (deadline now i : ℕ) (l : i < total_count)
      (v : Reaches r seen deadline now i) where
    -- A fragment that came before changes nothing.
    pub accept-again :
        contains seen i ≡ true
        → ((accept r (frame_at i) now).0 ≡ status_only duplicate_fragment)
          × IsHeld (accept r (frame_at i) now).1 seen deadline
    accept-again old =
        let w = v.held in
        let same =
          v.same
          ∙ store_fragment-again tag sequence logical mtu supported lower upper v.base w.index
              w.slot seen deadline w.capacity_same w.holds i l old in
        (
          ap (λ (x : ReassemblyResult × Reassembler). x.0) same,
          subst (λ (x : Reassembler). IsHeld x seen deadline)
              (sym (ap (λ (x : ReassemblyResult × Reassembler). x.1) same)) w,
        )

    -- A new fragment, but not the last one, is kept.
    pub accept-more :
        (j : ℕ)
        → contains seen i ≡ false
        → j < total_count
        → contains (i ∷ seen) j ≡ false
        → ((accept r (frame_at i) now).0 ≡ status_only fragment_accepted)
          × IsHeld (accept r (frame_at i) now).1 (i ∷ seen) deadline
    accept-more j new k missing =
        let w = v.held in
        let same =
          v.same
          ∙ store_fragment-more tag sequence logical mtu supported lower upper v.base w.index w.slot
              seen deadline w.capacity_same w.holds i l j new k missing in
        let after =
          stored-SlotHolds tag sequence logical mtu supported lower upper v.base w.slot seen
            deadline i w.capacity_same w.holds l new in
        (
          ap (λ (x : ReassemblyResult × Reassembler). x.0) same,
          subst (λ (x : Reassembler). IsHeld x (i ∷ seen) deadline)
              (sym (ap (λ (x : ReassemblyResult × Reassembler). x.1) same))
              (record {
                mtu_same = w.mtu_same;
                capacity_same = w.capacity_same;
                index = w.index;
                slot = stored v.base w.slot (frame_at i);
                in_table =
                    find_slot-set (slot_has_key tag sequence) v.base.slots w.index w.slot
                      (stored v.base w.slot (frame_at i)) w.in_table
                      (held-key (stored v.base w.slot (frame_at i)) (i ∷ seen) after);
                holds = after;
                unquarantined = w.unquarantined;
              }),
        )
      where
        held-key :
            (s : Slot) (seen : List ℕ) → Holds s seen deadline → slot_has_key tag sequence s ≡ true
        held-key s seen h = ground (
          arith,
          h.used,
          h.tag_same,
          h.sequence_same,
          list_beq_iff s.tag tag,
          nat_beq_iff s.sender_sequence sequence,
        )

    -- The last fragment completes the post.
    pub accept-last :
        (p : PostPayload) (sent : List Bytes)
        → contains seen i ≡ false
        → ((j : ℕ) → j < total_count → contains (i ∷ seen) j ≡ true)
        → IsPostOf tag sequence logical mtu supported lower upper p sent
        → (accept r (frame_at i) now).0
          ≡ completion tag sequence logical mtu supported lower upper p sent
    accept-last p sent new all o =
        let w = v.held in
        ap (λ (x : ReassemblyResult × Reassembler). x.0) v.same
        ∙ store_fragment-last tag sequence logical mtu supported lower upper v.base w.index w.slot
            seen deadline w.capacity_same w.holds i l p sent w.mtu_same new all o
