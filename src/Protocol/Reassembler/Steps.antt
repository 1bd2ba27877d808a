-- ===== src/Protocol/Reassembler/Steps.antt =====
-- The calls of the reassembler keep its tables in order, and write inside its buffers.
use native.Mathlib.Nat.{one-le-pow, pow-suc}
use lora_messenger.Common.{
  ℕ, zero, suc, ◌+◌, ◌-◌, ◌*◌, ◌%◌, ◌^◌, ◌<◌, ◌≤◌, ◌≡◌, ◌≢◌, subst, ap, ◌∙◌, true, false,
  Bool-cases, inl, inr, Option, none, some, List, length, take, ◌==◌, nat_eq, list_eq, nat_beq_iff,
  arith, length-set, length-write_at,
}
use lora_messenger.Core.Result.{Result, success, failure}
use lora_messenger.Model.Post.{PostPayload}
use lora_messenger.Protocol.Limits.{Bytes}
use lora_messenger.Protocol.FrameCodec.{
  DataFrame, FrameCodecError, expected_count, expected_payload_size,
}
use lora_messenger.Protocol.FrameCodec.Counts.{total-le-capacity, capacity-lt-total}
use lora_messenger.Protocol.Fragmenter.Shares.{share_of}
use lora_messenger.Protocol.PostCodec.{decode_post}
use lora_messenger.Protocol.Reassembler.Slots.{Slot, empty_slot, has_fragment, complete_mask}
use lora_messenger.Protocol.Reassembler.Bitmap.{add_fragment-Added, complete_mask-ones}
use lora_messenger.Protocol.Reassembler.{
  belongs, finish, finish_post, finish_frames, stored, is_identical, store_fragment,
}
use lora_messenger.Protocol.Reassembler.State.{
  Reassembler, has_bad_fields, has_bad_size, with_slot, give_up_slot, canonical_frame,
  canonical_frames_loop,
}
use lora_messenger.Protocol.Reassembler.Invariant.{
  IsSlot, IsReassembler, IsPlace, empty_slot-IsSlot, set-set, with_slot-IsReassembler,
  give_up_slot-IsReassembler,
}

-- What the guards of `accept` know of a datagram.
pub record IsFitting (r : Reassembler) (frame : DataFrame) : Type 0 where
  pub index_lt : frame.fragment_index < frame.fragment_count
  pub count_max : frame.fragment_count ≤ 16
  pub total_min : 46 ≤ frame.total_length
  pub total_max : frame.total_length ≤ 316
  pub capacity_pos : 0 < r.fragment_capacity
  pub count_same : expected_count frame.total_length r.fragment_capacity ≡ frame.fragment_count
  pub size_same :
      length frame.payload
      ≡ expected_payload_size frame.fragment_index frame.fragment_count frame.total_length
          r.fragment_capacity

pub guards-IsFitting :
    (r : Reassembler) (frame : DataFrame)
    → has_bad_fields r frame ≡ false
    → has_bad_size r frame ≡ false
    → IsFitting r frame
unfolding has_bad_fields has_bad_size
guards-IsFitting r frame fields size = record {
  index_lt = ground (arith, fields);
  count_max = ground (arith, fields);
  total_min = ground (arith, fields);
  total_max = ground (arith, fields);
  capacity_pos = ground (arith, fields);
  count_same = ground (
    arith,
    size,
    nat_beq_iff (expected_count frame.total_length r.fragment_capacity) frame.fragment_count,
  );
  size_same = ground (
    arith,
    size,
    nat_beq_iff (length frame.payload) (
        expected_payload_size frame.fragment_index frame.fragment_count frame.total_length
          r.fragment_capacity),
  );
}

-- A datagram that passes the guards lies inside the message.
pub payload-fits :
    (r : Reassembler) (frame : DataFrame)
    → IsFitting r frame
    → frame.fragment_index * r.fragment_capacity + length frame.payload ≤ frame.total_length
payload-fits r frame v =
    let total = frame.total_length in
    let capacity = r.fragment_capacity in
    let (same, _, fits) =
      share_of total capacity frame.fragment_count frame.fragment_index v.capacity_pos
        (subst (λ (n : ℕ). total ≤ capacity * n) v.count_same
          (total-le-capacity total capacity v.capacity_pos))
        (subst (λ (n : ℕ). capacity * (n - 1) < total) v.count_same
          (capacity-lt-total total capacity v.capacity_pos (omega (arith, v.total_min))))
        v.index_lt in
    omega (arith, v.size_same, same, fits)

pub power_pos : (n : ℕ) → 0 < 2 ^ n
power_pos n = one-le-pow n 2 (omega arith)

pub mask_pos : (n : ℕ) → 0 < n → n ≤ 16 → 0 < complete_mask n
mask_pos zero h k = absurd (omega arith)
mask_pos (suc n) h k = omega (arith, complete_mask-ones (suc n) k, power_pos n, pow-suc 2 n)

stored-IsSlot :
    (r : Reassembler) (slot : Slot) (frame : DataFrame)
    → IsSlot slot
    → slot.used ≡ true
    → frame.fragment_index < slot.fragment_count
    → has_fragment slot.received_bitmap frame.fragment_index ≡ false
    → (stored r slot frame).received_bitmap ≢ complete_mask slot.fragment_count
    → IsSlot (stored r slot frame)
unfolding stored
stored-IsSlot r slot frame v u l new more =
    let open_slot = v.is_open u in
    let added =
      add_fragment-Added slot.fragment_count slot.received_bitmap frame.fragment_index
        open_slot.count_max l open_slot.bitmap_lt new in
    record {
      bytes_size =
          length-write_at slot.bytes (frame.fragment_index * r.fragment_capacity) frame.payload
          ∙ v.bytes_size;
      lengths_size =
          length-set slot.fragment_lengths frame.fragment_index (length frame.payload % 2 ^ 16)
          ∙ v.lengths_size;
      is_empty = λ e. absurd (cc (u, e));
      is_open = λ e. record {
        total_min = open_slot.total_min;
        total_max = open_slot.total_max;
        count_pos = open_slot.count_pos;
        count_max = open_slot.count_max;
        bitmap_lt = added.small;
      };
      incomplete = λ e. more;
    }

given_up-IsReassembler :
    (r : Reassembler) (index : ℕ) (old slot : Slot)
    → IsReassembler r
    → IsPlace r index old
    → IsReassembler (give_up_slot (with_slot r index slot) index slot slot.tag slot.sender_sequence)
unfolding give_up_slot
given_up-IsReassembler r index old slot v place =
    rw (set-set r.slots index slot empty_slot)
      (give_up_slot-IsReassembler r index old slot slot.tag slot.sender_sequence v place)

-- The slot that is given up, or cleared, holds the last fragment already.
finish_frames-IsReassembler :
    (r : Reassembler) (index : ℕ) (old slot : Slot) (p : PostPayload) (canonical : Bytes)
    (frames : Result (List Bytes) FrameCodecError)
    → IsReassembler r
    → IsPlace r index old
    → IsReassembler (finish_frames (with_slot r index slot) index slot p canonical frames).1
unfolding finish_frames
finish_frames-IsReassembler r index old slot p canonical (failure error) v place =
    given_up-IsReassembler r index old slot v place
finish_frames-IsReassembler r index old slot p canonical (success frames) v place =
    rw (set-set r.slots index slot empty_slot)
      (with_slot-IsReassembler r index old empty_slot v place empty_slot-IsSlot)

finish_post-IsReassembler :
    (r : Reassembler) (index : ℕ) (old slot : Slot) (canonical : Bytes) (post : Option PostPayload)
    → IsReassembler r
    → IsPlace r index old
    → IsReassembler (finish_post (with_slot r index slot) index slot canonical post).1
unfolding finish_post
finish_post-IsReassembler r index old slot canonical none v place =
    given_up-IsReassembler r index old slot v place
finish_post-IsReassembler r index old slot canonical (some p) v place =
    finish_frames-IsReassembler r index old slot p canonical
      (canonical_frames_loop (canonical_frame (with_slot r index slot) slot) r.mtu
        slot.fragment_count 0)
      v place

pub store_fragment-IsReassembler :
    (r : Reassembler) (index : ℕ) (slot : Slot) (frame : DataFrame)
    → IsReassembler r
    → IsPlace r index slot
    → IsSlot slot
    → frame.fragment_index < frame.fragment_count
    → slot.fragment_count ≡ frame.fragment_count
    → IsReassembler (store_fragment r index slot frame).1
unfolding store_fragment finish
store_fragment-IsReassembler r index slot frame v place w l same_count =
    elim (Bool-cases (has_fragment slot.received_bitmap frame.fragment_index)) [
      | inl old ↦ elim (Bool-cases (is_identical r slot frame)) [
        | inl same ↦ rw (old, same) v
        | inr other ↦
            rw (old, other)
              (give_up_slot-IsReassembler r index slot slot frame.tag frame.sender_sequence v place)
      ]
      | inr new ↦
          elim (Bool-cases
            ((stored r slot frame).received_bitmap == complete_mask frame.fragment_count)) [
              | inl full ↦
                  rw (new, full)
                    (finish_post-IsReassembler r index slot (stored r slot frame)
                      (take slot.total_length (stored r slot frame).bytes)
                      (belongs (stored r slot frame)
                        (decode_post (some (take slot.total_length (stored r slot frame).bytes))))
                      v place)
              | inr more ↦
                  rw (new, more)
                    (with_slot-IsReassembler r index slot (stored r slot frame) v place (
                      stored-IsSlot r slot frame w place.in_use (omega (arith, l, same_count)) new
                        (λ e. ground (arith, more, e ∙ ap complete_mask same_count))))
            ]
    ]
