-- ===== src/Protocol/Reassembler/Accepting.antt =====
-- What `accept` does with a fragment of the message that the reassembler holds a part of.
use lora_messenger.Common.{
  ℕ, ◌<◌, ◌≤◌, ◌≡◌, refl, sym, ap, ap₂, ◌∙◌, true, false, some, List, length, nat_eq, list_eq,
  arith, nat_beq_iff,
}
use lora_messenger.Protocol.Limits.{Bytes, MessageTag, is_supported_mtu, frame_payload_capacity}
use lora_messenger.Protocol.FrameCodec.{DataFrame, expected_count, expected_payload_size}
use lora_messenger.Protocol.FrameCodec.Counts.{capacity_lem}
use lora_messenger.Protocol.Fragmenter.{fragment_frame}
use lora_messenger.Protocol.Fragmenter.Shares.{share}
use lora_messenger.Protocol.Reassembler.Slots.{Slot, slot_has_key, find_slot, any_key, expire_keys}
use lora_messenger.Protocol.Reassembler.Table.{find_slot-expire, any_key-expire}
use lora_messenger.Protocol.Reassembler.{accept_key, fresh_keys, accept_live, accept}
use lora_messenger.Protocol.Reassembler.State.{Reassembler, expire, has_bad_fields, has_bad_size}
use lora_messenger.Protocol.Reassembler.SlotHolds.{SlotHolds, count, frame_of, few, length-payload}

good_fields :
    (r : Reassembler) (frame : DataFrame)
    → is_supported_mtu r.mtu ≡ true
    → 0 < frame.sender_sequence
    → 0 < r.fragment_capacity
    → frame.fragment_count ≤ 16
    → frame.fragment_index < frame.fragment_count
    → 46 ≤ frame.total_length
    → frame.total_length ≤ 316
    → has_bad_fields r frame ≡ false
unfolding has_bad_fields
good_fields r frame s q c n i lower upper = ground arith

good_size :
    (r : Reassembler) (frame : DataFrame)
    → expected_count frame.total_length r.fragment_capacity ≡ frame.fragment_count
    → length frame.payload
      ≡ expected_payload_size frame.fragment_index frame.fragment_count frame.total_length
          r.fragment_capacity
    → has_bad_size r frame ≡ false
unfolding has_bad_size
good_size r frame n size = ground (
  arith,
  nat_beq_iff (expected_count frame.total_length r.fragment_capacity) frame.fragment_count,
  nat_beq_iff (length frame.payload) (
      expected_payload_size frame.fragment_index frame.fragment_count frame.total_length
        r.fragment_capacity),
)

-- What `accept` makes of the reassembler before it looks for the slot.
abbrev pub prepared : ℕ → Reassembler → Reassembler
prepared now r = fresh_keys now (expire now r).0

-- A datagram that passes the guards.
accept-guarded :
    (r : Reassembler) (frame : DataFrame) (now : ℕ)
    → has_bad_fields (expire now r).0 frame ≡ false
    → has_bad_size (expire now r).0 frame ≡ false
    → any_key (prepared now r).quarantine frame.tag frame.sender_sequence ≡ false
    → accept r frame now ≡ accept_key (prepared now r) frame now
unfolding accept accept_live
accept-guarded r frame now good size fresh = rw (good, size, fresh) refl

module _ (tag : MessageTag) (sequence : ℕ) (logical : Bytes) (mtu : ℕ)
    (supported : is_supported_mtu mtu ≡ true) (lower : 46 ≤ length logical)
    (upper : length logical ≤ 316) where
  abbrev total_count : ℕ
  total_count = count tag sequence logical mtu supported lower upper

  abbrev frame_at : ℕ → DataFrame
  frame_at = frame_of tag sequence logical mtu supported lower upper

  abbrev Holds : Slot → List ℕ → ℕ → Type 0
  Holds = SlotHolds tag sequence logical mtu supported lower upper

  pub frame-fields :
      (i : ℕ)
      → i < total_count
      → ((frame_at i).tag ≡ tag)
        × ((frame_at i).sender_sequence ≡ sequence)
        × ((frame_at i).total_length ≡ length logical)
        × ((frame_at i).fragment_count ≡ total_count)
        × ((frame_at i).fragment_index ≡ i)
  unfolding fragment_frame
  frame-fields i h =
      let small = few tag sequence logical mtu supported lower upper in
      (refl, refl, omega (arith, upper), omega (arith, small), omega (arith, small, h))

  -- The reassembler holds these fragments of the message until the deadline.
  pub record Holding (r : Reassembler) (seen : List ℕ) (deadline : ℕ) : Type 0 where
    pub mtu_same : r.mtu ≡ mtu
    pub capacity_same : r.fragment_capacity ≡ frame_payload_capacity mtu
    pub index : ℕ
    pub slot : Slot
    pub in_table : find_slot (slot_has_key tag sequence) r.slots ≡ some (index, slot)
    pub holds : Holds slot seen deadline
    pub unquarantined : any_key r.quarantine tag sequence ≡ false

  pub Holding-prepared :
      (r : Reassembler) (seen : List ℕ) (deadline now : ℕ)
      → now < deadline
      → Holding r seen deadline
      → Holding (prepared now r) seen deadline
  unfolding expire
  Holding-prepared r seen deadline now h v = record {
    mtu_same = v.mtu_same;
    capacity_same = v.capacity_same;
    index = v.index;
    slot = v.slot;
    in_table =
        find_slot-expire now tag sequence r.slots v.index v.slot v.in_table
          (omega (arith, v.holds.deadline_same));
    holds = v.holds;
    unquarantined =
        any_key-expire now tag sequence (expire_keys now r.quarantine)
          (any_key-expire now tag sequence r.quarantine v.unquarantined);
  }

  sized :
      (i : ℕ)
      → i < total_count
      → (r : Reassembler) → r.fragment_capacity ≡ frame_payload_capacity mtu
      → length (frame_at i).payload
        ≡ expected_payload_size
            (frame_at i).fragment_index
            (frame_at i).fragment_count
            (frame_at i).total_length
            r.fragment_capacity
  sized i h r c =
      let (_, _, same_total, same_count, same_index) = frame-fields i h in
      length-payload tag sequence logical mtu supported lower upper i h
      ∙ (share (length logical) (frame_payload_capacity mtu) i (capacity_lem mtu supported).0 lower
          h).0
      ∙ sym (
          ap
            (λ (x : ℕ).
              expected_payload_size x (frame_at i).fragment_count (frame_at i).total_length
                r.fragment_capacity)
            same_index
          ∙ ap (λ (x : ℕ). expected_payload_size i x (frame_at i).total_length r.fragment_capacity)
              same_count
          ∙ ap₂ (expected_payload_size i total_count) same_total c)

  -- A fragment of the message passes the guards of `accept`.
  pub accept-prepared :
      (r : Reassembler) (now i : ℕ)
      → 0 < sequence
      → r.mtu ≡ mtu
      → r.fragment_capacity ≡ frame_payload_capacity mtu
      → any_key (prepared now r).quarantine tag sequence ≡ false
      → i < total_count
      → accept r (frame_at i) now ≡ accept_key (prepared now r) (frame_at i) now
  unfolding expire fragment_frame
  accept-prepared r now i positive m c unquarantined h =
      let (same_tag, same_sequence, same_total, same_count, same_index) = frame-fields i h in
      let good : has_bad_fields (expire now r).0 (frame_at i) ≡ false =
        good_fields (expire now r).0 (frame_at i) (rw m supported) (omega (arith, same_sequence))
          (omega (arith, c, (capacity_lem mtu supported).0))
          (omega (arith, same_count, few tag sequence logical mtu supported lower upper))
          (omega (arith, same_count, same_index)) (omega (arith, same_total))
          (omega (arith, same_total)) in
      let size : has_bad_size (expire now r).0 (frame_at i) ≡ false =
        good_size (expire now r).0 (frame_at i) (ap₂ expected_count same_total c ∙ sym same_count)
          (sized i h r c) in
      accept-guarded r (frame_at i) now good size unquarantined
