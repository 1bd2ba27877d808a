-- ===== src/Protocol/Reassembler/Complete.antt =====
-- The fragments of a post, in any order and with repetitions, end in the post.
use lora_messenger.Common.{
  ℕ, zero, suc, ◌+◌, ◌<◌, ◌≤◌, ◌≡◌, refl, ap, ◌∙◌, true, false, ◌||◌, Bool-cases, inl, inr, List,
  [], ◌∷◌, length, nat_eq, arith, All,
}
use lora_messenger.Core.Result.{
  success, or_fail, or_fail-eq_success, >>=-eq_success, success-injective,
}
use lora_messenger.Model.Post.{PostPayload, contains}
use lora_messenger.Protocol.Limits.{Bytes, MessageTag, is_supported_mtu}
use lora_messenger.Protocol.FrameCodec.{DataFrame, encode_frame}
use lora_messenger.Protocol.Fragmenter.{fragment_loop, frame_encode_failed}
use lora_messenger.Protocol.Reassembler.Slots.{saturating_deadline, reassembly_timeout_ticks}
use lora_messenger.Protocol.Reassembler.{accept}
use lora_messenger.Protocol.Reassembler.State.{Reassembler, canonical_frames_loop}
use lora_messenger.Protocol.Reassembler.Holding.{IsPostOf, completion}
use lora_messenger.Protocol.Reassembler.SlotHolds.{count, frame_of}
use lora_messenger.Protocol.Reassembler.Delivery.{
  IsHeld, IsUnseen, Reaches, Holding-Reaches, IsUnseen-Reaches, accept-again, accept-more,
  accept-last,
}

-- A fragment's index and the tick at which it comes.
abbrev pub Arrival : Type 0
Arrival = ℕ × ℕ

abbrev pub indices : List Arrival → List ℕ
indices [] = []
indices ((i, now) ∷ arrivals) = i ∷ indices arrivals

-- The reassembler after these fragments.
abbrev pub feed : (ℕ → DataFrame) → Reassembler → List Arrival → Reassembler
feed frame_at r [] = r
feed frame_at r ((i, now) ∷ arrivals) = feed frame_at (accept r (frame_at i) now).1 arrivals

-- The deadline that the first fragment sets.
abbrev pub first_deadline : List Arrival → ℕ → ℕ
first_deadline [] now = saturating_deadline now reassembly_timeout_ticks
first_deadline ((i, first) ∷ arrivals) now = saturating_deadline first reassembly_timeout_ticks

abbrev pub InTime : ℕ → ℕ → Arrival → Type 0
InTime number deadline (i, now) = (i < number) × (now < deadline)

-- Both loops over the fragments encode the same frames.
pub canonical_frames_loop-fragment_loop :
    (frame_at : ℕ → DataFrame) (mtu n index : ℕ) (sent : List Bytes)
    → fragment_loop frame_at mtu n index ≡ success sent
    → canonical_frames_loop frame_at mtu n index ≡ success sent
unfolding fragment_loop canonical_frames_loop
canonical_frames_loop-fragment_loop frame_at mtu zero index sent e = cc (success-injective e)
canonical_frames_loop-fragment_loop frame_at mtu (suc n) index sent e =
    let (encoded, e0, e1) =
      >>=-eq_success (or_fail (encode_frame (frame_at index) mtu) frame_encode_failed) _ e in
    let (rest, e2, e3) = >>=-eq_success (fragment_loop frame_at mtu n (index + 1)) _ e1 in
    let one = or_fail-eq_success (encode_frame (frame_at index) mtu) frame_encode_failed e0 in
    rw (one, canonical_frames_loop-fragment_loop frame_at mtu n (index + 1) rest e2)
      (ap success (success-injective e3))

-- Which fragments are there after these arrivals.
abbrev Marks : List ℕ → List ℕ → List ℕ → Type 0
Marks after new seen = (k : ℕ) → contains after k ≡ (contains new k || contains seen k)

same-Marks : (i : ℕ) (seen : List ℕ) → contains seen i ≡ true → Marks seen (i ∷ []) seen
unfolding contains
same-Marks i seen old k = elim (Bool-cases (nat_eq.beq i k)) [
  | inl same ↦ let it : i ≡ k = (nat_eq.beq_iff i k).0 same in rw same (rw (← it) old)
  | inr other ↦ rw other refl
]

new-Marks : (i : ℕ) (seen : List ℕ) → Marks (i ∷ seen) (i ∷ []) seen
unfolding contains
new-Marks i seen k = ground arith

more-Marks :
    (i : ℕ) (new more seen after : List ℕ)
    → Marks more (i ∷ []) seen
    → Marks after new more
    → Marks after (i ∷ new) seen
unfolding contains
more-Marks i new more seen after h all k = ground (arith, h k, all k)

missing_one :
    (i j : ℕ) (new seen : List ℕ)
    → contains (i ∷ new) j ≡ false
    → contains seen j ≡ false
    → (contains (i ∷ seen) j ≡ false) × (contains new j ≡ false)
unfolding contains
missing_one i j new seen a b = (ground (arith, a, b), ground (arith, a))

missing_more :
    (i j : ℕ) (seen more : List ℕ)
    → Marks more (i ∷ []) seen
    → contains (i ∷ seen) j ≡ false
    → contains more j ≡ false
unfolding contains
missing_more i j seen more h a = ground (arith, h j, a)

module _ (tag : MessageTag) (sequence : ℕ) (logical : Bytes) (mtu : ℕ)
    (supported : is_supported_mtu mtu ≡ true) (lower : 46 ≤ length logical)
    (upper : length logical ≤ 316) (positive : 0 < sequence) where
  abbrev total_count : ℕ
  total_count = count tag sequence logical mtu supported lower upper

  abbrev frame_at : ℕ → DataFrame
  frame_at = frame_of tag sequence logical mtu supported lower upper

  abbrev Held : Reassembler → List ℕ → ℕ → Type 0
  Held = IsHeld tag sequence logical mtu supported lower upper positive

  -- One more fragment, when another is still missing.
  accept-Held :
      (r : Reassembler) (seen : List ℕ) (deadline now i j : ℕ)
      → i < total_count
      → j < total_count
      → contains (i ∷ seen) j ≡ false
      → Reaches tag sequence logical mtu supported lower upper positive r seen deadline now i
      → (after : List ℕ) × Held (accept r (frame_at i) now).1 after deadline
        × Marks after (i ∷ []) seen
  unfolding contains
  accept-Held r seen deadline now i j l k missing v = elim (Bool-cases (contains seen i)) [
    | inl old ↦ (
      seen,
      (accept-again tag sequence logical mtu supported lower upper positive r seen deadline now i l
          v old).1,
      λ k. same-Marks i seen old k,
    )
    | inr new ↦ (
      i ∷ seen,
      (accept-more tag sequence logical mtu supported lower upper positive r seen deadline now i l v
          j new k missing).1,
      new-Marks i seen,
    )
  ]

  feed-Held :
      (r : Reassembler) (seen : List ℕ) (deadline j : ℕ) (arrivals : List Arrival)
      → Held r seen deadline
      → All (InTime total_count deadline) arrivals
      → j < total_count
      → contains (indices arrivals) j ≡ false
      → contains seen j ≡ false
      → (after : List ℕ) × Held (feed frame_at r arrivals) after deadline
        × Marks after (indices arrivals) seen
  unfolding contains
  feed-Held r seen deadline j [] v h l a b = (seen, v, λ k. refl)
  feed-Held r seen deadline j ((i, now) ∷ arrivals) v h l a b =
      let reach =
        Holding-Reaches tag sequence logical mtu supported lower upper positive r seen deadline now
          i v h.0.1 h.0.0 in
      let (missing, later) = missing_one i j (indices arrivals) seen a b in
      let (more, held, marks) = accept-Held r seen deadline now i j h.0.0 l missing reach in
      let (after, w, all) =
        feed-Held (accept r (frame_at i) now).1 more deadline j arrivals held h.1 l later
          (missing_more i j seen more marks missing) in
      (after, w, more-Marks i (indices arrivals) more seen after marks all)

  -- The last fragment finds the others there.
  feed-Reaches :
      (r : Reassembler) (arrivals : List Arrival) (i now : ℕ)
      → IsUnseen tag sequence logical mtu supported lower upper positive r
      → All (InTime total_count (first_deadline arrivals now)) arrivals
      → i < total_count
      → now < first_deadline arrivals now
      → contains (indices arrivals) i ≡ false
      → (seen : List ℕ) × Reaches tag sequence logical mtu supported lower upper positive
          (feed frame_at r arrivals)
          seen
          (first_deadline arrivals now)
          now
          i
        × ((k : ℕ) → contains seen k ≡ contains (indices arrivals) k)
  unfolding contains
  feed-Reaches r [] i now v h l t missing = (
    [],
    IsUnseen-Reaches tag sequence logical mtu supported lower upper positive r now i v l,
    λ k. refl,
  )
  feed-Reaches r ((first, tick) ∷ arrivals) i now v h l t missing =
      let deadline = saturating_deadline tick reassembly_timeout_ticks in
      let reach =
        IsUnseen-Reaches tag sequence logical mtu supported lower upper positive r tick first v
          h.0.0 in
      let (absent, later) = missing_one first i (indices arrivals) [] missing refl in
      let (more, held, marks) = accept-Held r [] deadline tick first i h.0.0 l absent reach in
      let (after, w, all) =
        feed-Held (accept r (frame_at first) tick).1 more deadline i arrivals held h.1 l later
          (missing_more first i [] more marks absent) in
      (
        after,
        Holding-Reaches tag sequence logical mtu supported lower upper positive
            (feed frame_at (accept r (frame_at first) tick).1 arrivals) after deadline now i w t l,
        λ k. ground (arith, more-Marks first (indices arrivals) more [] after marks all k),
      )

  pub feed_complete :
      (r : Reassembler) (arrivals : List Arrival) (i now : ℕ) (p : PostPayload) (sent : List Bytes)
      → IsUnseen tag sequence logical mtu supported lower upper positive r
      → All (InTime total_count (first_deadline arrivals now)) arrivals
      → i < total_count
      → now < first_deadline arrivals now
      → contains (indices arrivals) i ≡ false
      → ((j : ℕ) → j < total_count → contains (i ∷ indices arrivals) j ≡ true)
      → IsPostOf tag sequence logical mtu supported lower upper p sent
      → (accept (feed frame_at r arrivals) (frame_at i) now).0
        ≡ completion tag sequence logical mtu supported lower upper p sent
  unfolding contains
  feed_complete r arrivals i now p sent v h l t missing every o =
      let (seen, reach, marks) = feed-Reaches r arrivals i now v h l t missing in
      accept-last tag sequence logical mtu supported lower upper positive (feed frame_at r arrivals)
        seen (first_deadline arrivals now) now i l reach p sent (marks i ∙ missing)
        (λ j k. ground (arith, marks j, every j k)) o
