-- ===== src/Protocol/Fragmenter/Frames.antt =====
-- The frames that `fragment_post` makes of a post's bytes.

use native.Mathlib.Decide.{dec_le}
use lora_messenger.Common.{
  ℕ, zero, suc, ◌+◌, ◌-◌, ◌*◌, ◌%◌, ◌^◌, ◌<◌, ◌≤◌, ◌≡◌, refl, sym, ap, ◌∙◌, min, true, some, List,
  [], ◌∷◌, ◌++◌, length, take, drop, nat_eq, All, All-slice, arith, length-take, length-drop,
}
use lora_messenger.Core.Result.{success}
use lora_messenger.Words.Network.{IsByte}
use lora_messenger.Protocol.Limits.{Bytes, MessageTag, is_supported_mtu, frame_payload_capacity}
use lora_messenger.Protocol.FrameCodec.{DataFrame, decode_frame, expected_count}
use lora_messenger.Protocol.FrameCodec.Counts.{
  Fields, Fields-validate_frame_fields, capacity_lem, total-le-capacity,
}
use lora_messenger.Protocol.FrameCodec.Accepts.{IsValid, datagram, encode_frame-datagram}
use lora_messenger.Protocol.FrameCodec.RoundTrip.{IsDataFrame, decode_frame-encode_frame}
use lora_messenger.Protocol.PostCodec.Offsets.{cut}
use lora_messenger.Protocol.Fragmenter.{fragment_frame, fragment_loop}
use lora_messenger.Protocol.Fragmenter.Shares.{share, count-le}

abbrev pub datagrams : List DataFrame → List Bytes
datagrams [] = []
datagrams (f ∷ fs) = datagram f ∷ datagrams fs

abbrev pub payloads : List DataFrame → Bytes
payloads [] = []
payloads (f ∷ fs) = f.payload ++ payloads fs

-- A receiver decodes the datagrams to these frames, one by one.
abbrev pub Received : ℕ → List Bytes → List DataFrame → Type 0
Received mtu [] [] = Unit {0}
Received mtu [] (f ∷ fs) = ⊥
Received mtu (b ∷ bs) [] = ⊥
Received mtu (b ∷ bs) (f ∷ fs) = (decode_frame (some b) mtu ≡ success f) × Received mtu bs fs

-- The frames carry this message, and they are numbered from `index` up to the announced count.
abbrev pub Numbered : MessageTag → ℕ → ℕ → ℕ → ℕ → List DataFrame → Type 0
Numbered tag sequence total count index [] = index ≡ count
Numbered tag sequence total count index (f ∷ fs) =
    (f.tag ≡ tag)
    × (f.sender_sequence ≡ sequence)
    × (f.total_length ≡ total)
    × (f.fragment_count ≡ count)
    × (f.fragment_index ≡ index)
    × Numbered tag sequence total count (index + 1) fs

module _ (tag : MessageTag) (sequence : ℕ) (logical : Bytes) (mtu : ℕ)
    (supported : is_supported_mtu mtu ≡ true) (tag_size : length tag ≡ 8)
    (tag_bytes : All IsByte tag) (positive : 0 < sequence) (word : sequence < 2 ^ 64)
    (bytes : All IsByte logical) (lower : 46 ≤ length logical) (upper : length logical ≤ 316) where
  abbrev pub capacity : ℕ
  capacity = frame_payload_capacity mtu

  abbrev pub count : ℕ
  count = expected_count (length logical) capacity

  abbrev pub frame_at : ℕ → DataFrame
  frame_at = fragment_frame tag sequence logical capacity count

  few : count ≤ 16
  few = count-le (length logical) capacity (capacity_lem mtu supported).0 (omega arith) upper

  part : (index : ℕ) → ℕ
  part index = min capacity (length logical - index * capacity)

  fragment-IsDataFrame : (index : ℕ) → index < count → IsDataFrame (frame_at index)
  unfolding fragment_frame
  fragment-IsDataFrame index h = record {
    tag_size = tag_size;
    tag_bytes = tag_bytes;
    sender_sequence_range = word;
    fragment_index_range = omega arith;
    fragment_count_range = omega arith;
    total_length_range = omega arith;
    payload_bytes = All-slice IsByte _ _ logical bytes;
  }

  fragment-Fields :
      (index : ℕ) → index < count → Fields sequence index count (length logical) (part index) mtu
  unfolding part
  fragment-Fields index h =
      let (exact, some_bytes, _) =
        share (length logical) capacity index (capacity_lem mtu supported).0 lower h in
      let cap = capacity_lem mtu supported in
      record {
        sequence_pos = positive;
        total_lower = lower;
        total_upper = upper;
        index_lt = h;
        count_le = few;
        size_pos = some_bytes;
        size_le = omega (arith, cap);
        count_exact = refl;
        size_exact = exact;
      }

  length-part :
      (index : ℕ)
      → index < count
      → length (take (part index) (drop (index * capacity) logical)) ≡ part index
  unfolding part
  length-part index h =
      let (_, _, fits) =
        share (length logical) capacity index (capacity_lem mtu supported).0 lower h in
      omega (
        arith,
        fits,
        length-take (part index) (drop (index * capacity) logical),
        length-drop (index * capacity) logical,
      )

  fragment-IsValid : (index : ℕ) → index < count → IsValid (frame_at index) mtu
  unfolding fragment_frame part
  fragment-IsValid index h =
      let small : index % 256 ≡ index = omega (arith, few) in
      let fewer : count % 256 ≡ count = omega (arith, few) in
      let total : length logical % 65536 ≡ length logical = omega arith in
      rw (small, fewer, total, length-part index h)
        (Fields-validate_frame_fields sequence index count (length logical) (part index) mtu
          (fragment-Fields index h))

  -- The frames of the rounds from `index` on, and what a receiver decodes them to.
  abbrev pub frames_from : ℕ → ℕ → List DataFrame
  frames_from zero index = []
  frames_from (suc n) index = frame_at index ∷ frames_from n (index + 1)

  pub fragment_loop-frames :
      (n index : ℕ)
      → index + n ≤ count
      → fragment_loop frame_at mtu n index ≡ success (datagrams (frames_from n index))
  unfolding fragment_loop
  fragment_loop-frames zero index h = refl
  fragment_loop-frames (suc n) index h =
      rw
        (encode_frame-datagram (frame_at index) mtu
          (fragment-IsDataFrame index (omega arith)).tag_size supported
          (fragment-IsValid index (omega arith)))
        (rw (fragment_loop-frames n (index + 1) (omega arith)))

  drop_past : (xs : Bytes) (n : ℕ) → length xs ≤ n → drop n xs ≡ []
  drop_past [] zero h = refl
  drop_past [] (suc n) h = refl
  drop_past (x ∷ xs) zero h = absurd (omega arith)
  drop_past (x ∷ xs) (suc n) h = drop_past xs n (omega arith)

  -- Behind a fragment's bytes stand those of the next one, or none.
  next_offset :
      (index : ℕ)
      → drop (index * capacity + part index) logical ≡ drop ((index + 1) * capacity) logical
  unfolding part
  next_offset index = elim (dec_le (index * capacity + capacity) (length logical)) [
    | yes full ↦ ap (λ (k : ℕ). drop k logical) (omega arith)
    | no last ↦
        drop_past logical _ (omega arith)
        ∙ sym (drop_past logical ((index + 1) * capacity) (omega arith))
  ]

  pub payloads-frames_from :
      (n index : ℕ)
      → index + n ≡ count
      → payloads (frames_from n index) ≡ drop (index * capacity) logical
  unfolding fragment_frame part
  payloads-frames_from zero index h =
      let enough =
        total-le-capacity (length logical) capacity (omega (arith, capacity_lem mtu supported)) in
      let e : index ≡ count = omega arith in
      sym (drop_past logical (index * capacity) (rw e (omega (arith, enough))))
  payloads-frames_from (suc n) index h =
      ap (◌++◌ (take (part index) (drop (index * capacity) logical)))
        (payloads-frames_from n (index + 1) (omega arith) ∙ sym (next_offset index))
      ∙ cut logical (index * capacity) (part index) _ refl

  pub frames_from-Received :
      (n index : ℕ)
      → index + n ≤ count
      → Received mtu (datagrams (frames_from n index)) (frames_from n index)
  frames_from-Received zero index h = tt
  frames_from-Received (suc n) index h =
      let typed = fragment-IsDataFrame index (omega arith) in
      (
        decode_frame-encode_frame (frame_at index) mtu _ typed (
            encode_frame-datagram (frame_at index) mtu typed.tag_size supported
              (fragment-IsValid index (omega arith))),
        frames_from-Received n (index + 1) (omega arith),
      )

  pub frames_from-Numbered :
      (n index : ℕ)
      → index + n ≡ count
      → Numbered tag sequence (length logical) count index (frames_from n index)
  unfolding fragment_frame
  frames_from-Numbered zero index h = omega arith
  frames_from-Numbered (suc n) index h = (
    refl,
    refl,
    omega arith,
    omega (arith, few),
    omega (arith, few),
    frames_from-Numbered n (index + 1) (omega arith),
  )

  pub length-frames_from : (n index : ℕ) → length (frames_from n index) ≡ n
  length-frames_from zero index = refl
  length-frames_from (suc n) index = ap suc (length-frames_from n (index + 1))

  pub length-datagrams : (n index : ℕ) → length (datagrams (frames_from n index)) ≡ n
  length-datagrams zero index = refl
  length-datagrams (suc n) index = ap suc (length-datagrams n (index + 1))
