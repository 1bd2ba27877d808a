-- ===== src/Protocol/Reassembler/Holding.antt =====
-- A reassembler that holds a part of a message, and what the next fragment does to it.
use lora_messenger.Common.{
  ℕ, zero, suc, ◌+◌, ◌<◌, ◌≤◌, ◌≡◌, ◌≢◌, refl, sym, ap, ap₂, ◌∙◌, true, false, Option, some, List,
  ◌∷◌, length, take, ◌==◌, nat_eq, list_eq, list_beq_iff, arith, nat_beq_iff,
}
use lora_messenger.Core.Result.{Result, success}
use lora_messenger.Model.Post.{PostPayload, contains}
use lora_messenger.Protocol.Limits.{Bytes, MessageTag, is_supported_mtu, frame_payload_capacity}
use lora_messenger.Protocol.FrameCodec.{DataFrame, FrameCodecError}
use lora_messenger.Protocol.PostCodec.{decode_post, message_tag}
use lora_messenger.Protocol.Reassembler.Slots.{Slot, has_fragment, complete_mask}
use lora_messenger.Protocol.Reassembler.Bitmap.{complete_mask-all, all-complete_mask}
use lora_messenger.Protocol.Reassembler.{
  belongs, finish, finish_post, finish_frames, stored, store_fragment,
}
use lora_messenger.Protocol.Reassembler.State.{
  Reassembler, ReassemblyResult, fragment_accepted, duplicate_fragment, complete, status_only,
  with_slot, canonical_frame, canonical_frames_loop,
}
use lora_messenger.Protocol.Reassembler.SlotHolds.{
  SlotHolds, count, frame_of, few, frame_of-index, frame_of-count, stored-SlotHolds,
  is_identical_again, all-bytes, canonical_frame-same,
}

-- The frames of the loop may be given in another way.
canonical_frames_loop-same :
    (f g : ℕ → DataFrame) (mtu n index : ℕ)
    → ((i : ℕ) → i < index + n → f i ≡ g i)
    → canonical_frames_loop f mtu n index ≡ canonical_frames_loop g mtu n index
unfolding canonical_frames_loop
canonical_frames_loop-same f g mtu zero index h = refl
canonical_frames_loop-same f g mtu (suc n) index h =
    rw
      (
        h index (omega arith),
        canonical_frames_loop-same f g mtu n (index + 1) (λ i l. h i (omega arith)),
      )
      refl

belongs-own :
    (s : Slot) (p : PostPayload)
    → s.tag ≡ message_tag p.message_id
    → s.sender_sequence ≡ p.sender_sequence
    → belongs s (success p) ≡ some p
unfolding belongs
belongs-own s p t q = ground (
  arith,
  list_beq_iff (message_tag p.message_id) s.tag,
  nat_beq_iff p.sender_sequence s.sender_sequence,
)

module _ (tag : MessageTag) (sequence : ℕ) (logical : Bytes) (mtu : ℕ)
    (supported : is_supported_mtu mtu ≡ true) (lower : 46 ≤ length logical)
    (upper : length logical ≤ 316) where
  abbrev total_count : ℕ
  total_count = count tag sequence logical mtu supported lower upper

  abbrev frame_at : ℕ → DataFrame
  frame_at = frame_of tag sequence logical mtu supported lower upper

  abbrev Holds : Slot → List ℕ → ℕ → Type 0
  Holds = SlotHolds tag sequence logical mtu supported lower upper

  -- The bytes are those of this post, and these datagrams carry them.
  pub record IsPostOf (p : PostPayload) (sent : List Bytes) : Type 0 where
    pub decoded : decode_post (some logical) ≡ success p
    pub own_tag : message_tag p.message_id ≡ tag
    pub own_sequence : p.sender_sequence ≡ sequence
    pub own_frames : canonical_frames_loop frame_at mtu total_count 0 ≡ success sent

  abbrev pub completion : PostPayload → List Bytes → ReassemblyResult
  completion p sent = record {
    status = complete;
    completed = some (record { post = p; canonical_post = logical; canonical_frames = sent });
  }

  finish_complete :
      (r : Reassembler) (index : ℕ) (s : Slot) (seen : List ℕ) (deadline : ℕ) (p : PostPayload)
      (sent : List Bytes)
      → r.fragment_capacity ≡ frame_payload_capacity mtu
      → r.mtu ≡ mtu
      → Holds s seen deadline
      → ((j : ℕ) → j < total_count → contains seen j ≡ true)
      → IsPostOf p sent
      → (finish r index s).0 ≡ completion p sent
  unfolding finish finish_post finish_frames
  finish_complete r index s seen deadline p sent c m v all o =
      let bytes =
        all-bytes tag sequence logical mtu supported lower upper r s seen deadline v all in
      let own =
        belongs-own s p (v.tag_same ∙ sym o.own_tag) (v.sequence_same ∙ sym o.own_sequence) in
      let loop : canonical_frames_loop (canonical_frame r s) r.mtu s.fragment_count 0
          ≡ success sent =
        ap₂ (λ (size rounds : ℕ). canonical_frames_loop (canonical_frame r s) size rounds 0) m
          v.count_same
        ∙ canonical_frames_loop-same (canonical_frame r s) frame_at mtu total_count 0 (λ i l.
          canonical_frame-same tag sequence logical mtu supported lower upper r s seen deadline v c
            all i (omega (arith, l)))
        ∙ o.own_frames in
      let found : belongs s (decode_post (some (take s.total_length s.bytes))) ≡ some p =
        ap (λ (b : Bytes). belongs s (decode_post (some b))) bytes
        ∙ ap (belongs s) o.decoded
        ∙ own in
      ap (λ (x : Option PostPayload). (finish_post r index s (take s.total_length s.bytes) x).0)
        found
      ∙ ap (λ (b : Bytes). (finish_post r index s b (some p)).0) bytes
      ∙ ap (λ (x : Result (List Bytes) FrameCodecError). (finish_frames r index s p logical x).0)
          loop

  module _ (r : Reassembler) (index : ℕ) (slot : Slot) (seen : List ℕ) (deadline : ℕ)
      (c : r.fragment_capacity ≡ frame_payload_capacity mtu) (v : Holds slot seen deadline) (i : ℕ)
      (h : i < total_count) where
    pub store_fragment-again :
        contains seen i ≡ true
        → store_fragment r index slot (frame_at i) ≡ (status_only duplicate_fragment, r)
    unfolding store_fragment
    store_fragment-again old =
        let marked : has_fragment slot.received_bitmap (frame_at i).fragment_index ≡ true =
          rw (frame_of-index tag sequence logical mtu supported lower upper i h)
            (v.marks i h ∙ old) in
        rw
          (
            marked,
            is_identical_again tag sequence logical mtu supported lower upper r slot seen deadline v
                i c h old,
          )
          refl

    unmarked :
        contains seen i ≡ false
        → has_fragment slot.received_bitmap (frame_at i).fragment_index ≡ false
    unmarked new =
        rw (frame_of-index tag sequence logical mtu supported lower upper i h) (v.marks i h ∙ new)

    pub store_fragment-more :
        (j : ℕ)
        → contains seen i ≡ false
        → j < total_count
        → contains (i ∷ seen) j ≡ false
        → store_fragment r index slot (frame_at i)
          ≡ (status_only fragment_accepted, with_slot r index (stored r slot (frame_at i)))
    unfolding store_fragment
    store_fragment-more j new l missing =
        let small = few tag sequence logical mtu supported lower upper in
        let after =
          stored-SlotHolds tag sequence logical mtu supported lower upper r slot seen deadline i c v
            h new in
        let open_mask : ((stored r slot (frame_at i)).received_bitmap
              == complete_mask (frame_at i).fragment_count)
            ≡ false =
          ground (
            arith,
            nat_beq_iff (stored r slot (frame_at i)).received_bitmap
                (complete_mask (frame_at i).fragment_count),
            not_complete (stored r slot (frame_at i)) after,
          ) in
        rw (unmarked new, open_mask) refl
      where
        not_complete :
            (s : Slot)
            → Holds s (i ∷ seen) deadline
            → s.received_bitmap ≢ complete_mask (frame_at i).fragment_count
        not_complete s after e = cc (
          sym (after.marks j l)
              ∙ all-complete_mask total_count s.received_bitmap j
                  (few tag sequence logical mtu supported lower upper)
                  (e
                    ∙ ap complete_mask
                        (frame_of-count tag sequence logical mtu supported lower upper i))
                  l,
          missing,
        )

    -- The fragment that completes the message.
    pub store_fragment-last :
        (p : PostPayload) (sent : List Bytes)
        → r.mtu ≡ mtu
        → contains seen i ≡ false
        → ((j : ℕ) → j < total_count → contains (i ∷ seen) j ≡ true)
        → IsPostOf p sent
        → (store_fragment r index slot (frame_at i)).0 ≡ completion p sent
    unfolding store_fragment
    store_fragment-last p sent m new all o =
        let after =
          stored-SlotHolds tag sequence logical mtu supported lower upper r slot seen deadline i c v
            h new in
        let s = stored r slot (frame_at i) in
        let full : (s.received_bitmap == complete_mask (frame_at i).fragment_count) ≡ true =
          (nat_beq_iff s.received_bitmap (complete_mask (frame_at i).fragment_count)).1 (
            complete_mask-all total_count s.received_bitmap
              (few tag sequence logical mtu supported lower upper) after.bitmap_lt
              (λ j l. after.marks j l ∙ all j l)
            ∙ sym (
                ap complete_mask
                  (frame_of-count tag sequence logical mtu supported lower upper i))) in
        rw (unmarked new, full)
          (finish_complete (with_slot r index s) index s (i ∷ seen) deadline p sent c m after all o)
