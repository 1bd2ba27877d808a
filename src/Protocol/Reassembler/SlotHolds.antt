-- ===== src/Protocol/Reassembler/SlotHolds.antt =====
-- What a slot holds of a message: the fragments that came, where they belong.
use lora_messenger.Common.{
  ℕ, ◌+◌, ◌-◌, ◌*◌, ◌%◌, ◌/◌, list_eq, ◌^◌, ◌<◌, ◌≤◌, ◌≡◌, ◌≢◌, subst, refl, sym, ◌∙◌, min, true,
  false, ◌||◌, Bool-cases, ◌⊎◌, inl, inr, List, ◌∷◌, length, get_or, take, drop, nat_eq, arith,
  list_beq_iff, length-take, length-drop, length-set, length-write_at, get_or-write_at_in,
  get_or-write_at_out, get_or-take, get_or-drop, get_or-set_same, get_or-set_other, list_ext,
}
use native.Mathlib.Decide.{dec_lt}
use native.Mathlib.Nat.{div-add-mod', div-lt_iff_lt-mul, mod-lt}
use lora_messenger.Model.Post.{contains}
use lora_messenger.Protocol.Limits.{Bytes, MessageTag, is_supported_mtu, frame_payload_capacity}
use lora_messenger.Protocol.FrameCodec.{DataFrame, expected_count}
use lora_messenger.Protocol.FrameCodec.Counts.{capacity_lem, total-le-capacity}
use lora_messenger.Protocol.Fragmenter.{fragment_frame}
use lora_messenger.Protocol.Fragmenter.Shares.{share, count-le}
use lora_messenger.Protocol.Reassembler.Slots.{Slot, has_fragment, add_fragment}
use lora_messenger.Protocol.Reassembler.Bitmap.{add_fragment-Added}
use lora_messenger.Protocol.Reassembler.{stored, is_identical}
use lora_messenger.Protocol.Reassembler.State.{Reassembler, canonical_frame}

-- A block of at most `c` stands before the next one.
block-le : (c i j : ℕ) → i < j → i * c + c ≤ j * c
block-le c i j h = grind arith

module _ (tag : MessageTag) (sequence : ℕ) (logical : Bytes) (mtu : ℕ)
    (supported : is_supported_mtu mtu ≡ true) (lower : 46 ≤ length logical)
    (upper : length logical ≤ 316) where
  abbrev pub capacity : ℕ
  capacity = frame_payload_capacity mtu

  abbrev pub count : ℕ
  count = expected_count (length logical) capacity

  abbrev pub part : ℕ → ℕ
  part i = min capacity (length logical - i * capacity)

  abbrev pub frame_of : ℕ → DataFrame
  frame_of = fragment_frame tag sequence logical capacity count

  pub record SlotHolds (slot : Slot) (seen : List ℕ) (deadline : ℕ) : Type 0 where
    pub used : slot.used ≡ true
    pub tag_same : slot.tag ≡ tag
    pub sequence_same : slot.sender_sequence ≡ sequence
    pub total_same : slot.total_length ≡ length logical
    pub count_same : slot.fragment_count ≡ count
    pub deadline_same : slot.deadline ≡ deadline
    pub bytes_size : length slot.bytes ≡ 316
    pub lengths_size : length slot.fragment_lengths ≡ 16
    pub bitmap_lt : slot.received_bitmap < 2 ^ count
    pub marks : (i : ℕ) → i < count → has_fragment slot.received_bitmap i ≡ contains seen i
    pub lengths :
        (i : ℕ) → i < count → contains seen i ≡ true → get_or slot.fragment_lengths i 0 ≡ part i
    pub agree :
        (i k : ℕ)
        → i < count
        → contains seen i ≡ true
        → k < part i
        → get_or slot.bytes (i * capacity + k) 0 ≡ get_or logical (i * capacity + k) 0

  pub few : count ≤ 16
  few = count-le (length logical) capacity (capacity_lem mtu supported).0 (omega arith) upper

  pub part-fits : (i : ℕ) → i < count → (i * capacity + part i ≤ length logical) × (0 < part i)
  part-fits i h =
      let (_, pos, fits) =
        share (length logical) capacity i (capacity_lem mtu supported).0 lower h in
      (fits, pos)

  pub length-payload : (i : ℕ) → i < count → length (frame_of i).payload ≡ part i
  unfolding fragment_frame
  length-payload i h = omega (
    arith,
    part-fits i h,
    length-take (part i) (drop (i * capacity) logical),
    length-drop (i * capacity) logical,
  )

  pub frame_of-index : (i : ℕ) → i < count → (frame_of i).fragment_index ≡ i
  unfolding fragment_frame
  frame_of-index i h = omega (arith, few)

  pub frame_of-count : (i : ℕ) → (frame_of i).fragment_count ≡ count
  unfolding fragment_frame
  frame_of-count i = omega (arith, few)

  payload_of : (i : ℕ) → take (part i) (drop (i * capacity) logical) ≡ (frame_of i).payload
  unfolding fragment_frame
  payload_of i = refl

  payload-get_or :
      (i k : ℕ) → k < part i → get_or (frame_of i).payload k 0 ≡ get_or logical (i * capacity + k) 0
  unfolding fragment_frame
  payload-get_or i k h =
      get_or-take (part i) (drop (i * capacity) logical) k 0 h
      ∙ get_or-drop (i * capacity) logical k 0

  -- Fragments do not overlap.
  apart :
      (i j k : ℕ)
      → i ≢ j
      → k < part j
      → (j * capacity + k < i * capacity) ⊎ (i * capacity + part i ≤ j * capacity + k)
  apart i j k h l = elim (dec_lt j i) [
    | yes before ↦ inl (omega (arith, block-le capacity j i before, l))
    | no behind ↦ inr (omega (arith, block-le capacity i j (other behind), l))
  ]
    where
      other : ¬ (j < i) → i < j
      other behind = ground (arith, behind, h)

  -- A new fragment is stored beside the others.
  pub stored-SlotHolds :
      (r : Reassembler) (slot : Slot) (seen : List ℕ) (deadline i : ℕ)
      → r.fragment_capacity ≡ capacity
      → SlotHolds slot seen deadline
      → i < count
      → contains seen i ≡ false
      → SlotHolds (stored r slot (frame_of i)) (i ∷ seen) deadline
  unfolding stored contains
  stored-SlotHolds r slot seen deadline i c v h new =
      let added =
        add_fragment-Added count slot.received_bitmap i few h v.bitmap_lt (v.marks i h ∙ new) in
      let size = length-payload i h in
      let fits = part-fits i h in
      let word : length (frame_of i).payload % 2 ^ 16 ≡ part i = omega (arith, size, fits, upper) in
      rw (frame_of-index i h, c, word)
        (record {
          used = v.used;
          tag_same = v.tag_same;
          sequence_same = v.sequence_same;
          total_same = v.total_same;
          count_same = v.count_same;
          deadline_same = v.deadline_same;
          bytes_size =
              length-write_at slot.bytes (i * capacity) (frame_of i).payload ∙ v.bytes_size;
          lengths_size = length-set slot.fragment_lengths i (part i) ∙ v.lengths_size;
          bitmap_lt = added.small;
          marks = λ j l. marked j l;
          lengths = λ j l m. elim (Bool-cases (nat_eq.beq i j)) [
            | inl same ↦
                let it : i ≡ j = (nat_eq.beq_iff i j).0 same in
                rw (← it) (
                  get_or-set_same slot.fragment_lengths i (part i) 0
                    (omega (arith, v.lengths_size, few)))
            | inr other ↦
                get_or-set_other slot.fragment_lengths i j (part i) 0 (sides i j other)
                ∙ v.lengths j l (rest j other m)
          ];
          agree = λ j k l m b. elim (Bool-cases (nat_eq.beq i j)) [
            | inl same ↦
                let it : i ≡ j = (nat_eq.beq_iff i j).0 same in
                let inside : k < part i = subst (λ (x : ℕ). k < part x) (sym it) b in
                rw (← it) (
                  get_or-write_at_in slot.bytes (i * capacity) (frame_of i).payload k 0
                    (omega (arith, size, inside)) (omega (arith, size, fits, v.bytes_size, upper))
                  ∙ payload-get_or i k inside)
            | inr other ↦
                get_or-write_at_out slot.bytes (i * capacity) (frame_of i).payload
                  (j * capacity + k) 0 (rw size (apart i j k (different i j other) b))
                ∙ v.agree j k l (rest j other m) b
          ];
        })
    where
      different : (i j : ℕ) → nat_eq.beq i j ≡ false → i ≢ j
      different i j other e = ground (arith, other, e)

      sides : (i j : ℕ) → nat_eq.beq i j ≡ false → (i < j) ⊎ (j < i)
      sides i j other = ground (arith, other)

      rest :
          (j : ℕ)
          → nat_eq.beq i j ≡ false
          → (nat_eq.beq i j || contains seen j) ≡ true
          → contains seen j ≡ true
      rest j other m = ground (arith, other, m)

      marked :
          (j : ℕ)
          → j < count
          → has_fragment (add_fragment slot.received_bitmap i) j
            ≡ (nat_eq.beq i j || contains seen j)
      marked j l = elim (Bool-cases (nat_eq.beq i j)) [
        | inl same ↦
            let it : i ≡ j = (nat_eq.beq_iff i j).0 same in
            rw same (
              rw (← it)
                (add_fragment-Added count slot.received_bitmap i few h v.bitmap_lt
                  (v.marks i h ∙ new)).has_it)
        | inr other ↦ rw other (
            (add_fragment-Added count slot.received_bitmap i few h v.bitmap_lt
                (v.marks i h ∙ new)).others
              j (different i j other)
            ∙ v.marks j l)
      ]

  module _ (r : Reassembler) (slot : Slot) (seen : List ℕ) (deadline : ℕ)
      (v : SlotHolds slot seen deadline) where
    slice-same :
        (i : ℕ)
        → i < count
        → contains seen i ≡ true
        → take (part i) (drop (i * capacity) slot.bytes)
          ≡ take (part i) (drop (i * capacity) logical)
    slice-same i h old =
        let fits = part-fits i h in
        list_ext _ _ 0
          (omega (
            arith,
            length-take (part i) (drop (i * capacity) slot.bytes),
            length-take (part i) (drop (i * capacity) logical),
            length-drop (i * capacity) slot.bytes,
            length-drop (i * capacity) logical,
            v.bytes_size,
            fits,
            upper,
          ))
          (λ k l.
            let inside : k < part i =
              omega (arith, l, length-take (part i) (drop (i * capacity) slot.bytes)) in
            get_or-take (part i) (drop (i * capacity) slot.bytes) k 0 inside
            ∙ get_or-drop (i * capacity) slot.bytes k 0
            ∙ v.agree i k h old inside
            ∙ sym (
                get_or-take (part i) (drop (i * capacity) logical) k 0 inside
                ∙ get_or-drop (i * capacity) logical k 0))

    -- A fragment that came before is recognised.
    pub is_identical_again :
        (i : ℕ)
        → r.fragment_capacity ≡ capacity
        → i < count
        → contains seen i ≡ true
        → is_identical r slot (frame_of i) ≡ true
    unfolding is_identical
    is_identical_again i c h old =
        let same = slice-same i h old ∙ payload_of i in
        rw (frame_of-index i h, c, length-payload i h, v.lengths i h old, same)
          (ground (arith, list_beq_iff (frame_of i).payload (frame_of i).payload))

    -- Once every fragment is there, the bytes are the message.
    pub all-bytes :
        ((i : ℕ) → i < count → contains seen i ≡ true) → take slot.total_length slot.bytes ≡ logical
    all-bytes all =
        let size = length-take (length logical) slot.bytes in
        rw v.total_same (
          list_ext (take (length logical) slot.bytes) logical 0
            (omega (arith, size, v.bytes_size, upper))
            (λ k l.
              let below : k < length logical = omega (arith, l, size) in
              get_or-take (length logical) slot.bytes k 0 below ∙ byte k below))
      where
        byte : (k : ℕ) → k < length logical → get_or slot.bytes k 0 ≡ get_or logical k 0
        byte k below =
            let positive : 0 < capacity = omega (arith, (capacity_lem mtu supported).0) in
            let back = div-add-mod' k capacity in
            let enough = total-le-capacity (length logical) capacity positive in
            let block : k / capacity < count =
              (div-lt_iff_lt-mul positive).1 (omega (arith, enough, below)) in
            let inside : k % capacity < part (k / capacity) =
              omega (arith, mod-lt k positive, back, below) in
            subst (λ (x : ℕ). get_or slot.bytes x 0 ≡ get_or logical x 0) back
              (v.agree (k / capacity) (k % capacity) block (all (k / capacity) block) inside)

    pub canonical_frame-same :
        r.fragment_capacity ≡ capacity
        → ((i : ℕ) → i < count → contains seen i ≡ true)
        → (i : ℕ) → i < count
        → canonical_frame r slot i ≡ frame_of i
    unfolding canonical_frame fragment_frame
    canonical_frame-same c all i h =
        let fewer : count % 256 ≡ count = omega (arith, few) in
        let total : length logical % 65536 ≡ length logical = omega (arith, upper) in
        rw
          (
            v.tag_same,
            v.sequence_same,
            v.total_same,
            v.count_same,
            c,
            v.lengths i h (all i h),
            slice-same i h (all i h),
            fewer,
            total,
          )
          refl
