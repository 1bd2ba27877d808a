-- ===== src/Protocol/Reassembler/Authentic.antt =====
-- A completed post belongs to the key under which its fragments were collected.
use lora_messenger.Common.{
  ℕ, ◌≡◌, refl, sym, ap, ◌∙◌, subst, not, ◌||◌, Bool-cases, inl, inr, Option, none, some, List,
  take, ◌==◌, nat_eq, list_eq, list_beq_iff, nat_beq_iff, arith,
}
use lora_messenger.Core.Result.{Result, success, failure}
use lora_messenger.Model.Post.{PostPayload}
use lora_messenger.Protocol.Limits.{Bytes, MessageTag}
use lora_messenger.Protocol.FrameCodec.{DataFrame, FrameCodecError}
use lora_messenger.Protocol.PostCodec.{PostCodecError, decode_post, message_tag}
use lora_messenger.Protocol.Reassembler.Slots.{
  Slot, slot_has_key, is_free, find_slot, any_key, has_fragment, complete_mask,
}
use lora_messenger.Protocol.Reassembler.Table.{find_slot-test}
use lora_messenger.Protocol.Reassembler.{
  belongs, finish, finish_post, finish_frames, stored, is_identical, store_fragment, opened,
  accept_free, accept_found, accept_key, accept_live, accept, fresh_keys,
}
use lora_messenger.Protocol.Reassembler.State.{
  Reassembler, ReassemblyResult, CompletedPost, expire, canonical_frame, canonical_frames_loop,
  open_slot, with_slot, has_bad_fields, has_bad_size,
}

-- What a completed post must be, given the key under which it was collected.
pub record IsAuthentic (tag : MessageTag) (sequence : ℕ) (c : CompletedPost) : Type 0 where
  pub decoded : decode_post (some c.canonical_post) ≡ success c.post
  pub tag_same : message_tag c.post.message_id ≡ tag
  pub sequence_same : c.post.sender_sequence ≡ sequence

abbrev Answers : MessageTag → ℕ → ReassemblyResult → Type 0
Answers tag sequence result =
    (c : CompletedPost) → result.completed ≡ some c → IsAuthentic tag sequence c

IsAuthentic-key :
    (tag other : MessageTag) (sequence number : ℕ) (result : ReassemblyResult)
    → tag ≡ other
    → sequence ≡ number
    → Answers tag sequence result
    → Answers other number result
IsAuthentic-key tag other sequence number result t n a c e =
    let v = a c e in
    record { decoded = v.decoded; tag_same = v.tag_same ∙ t; sequence_same = v.sequence_same ∙ n }

belongs-some :
    (slot : Slot) (decoded : Result PostPayload PostCodecError) (p : PostPayload)
    → belongs slot decoded ≡ some p
    → (decoded ≡ success p)
      × (message_tag p.message_id ≡ slot.tag)
      × (p.sender_sequence ≡ slot.sender_sequence)
unfolding belongs
belongs-some slot (failure error) p e = absurd (cc e)
belongs-some slot (success q) p e =
    elim (Bool-cases (
      not (message_tag q.message_id == slot.tag)
      || not (q.sender_sequence == slot.sender_sequence))) [
        | inl other ↦ absurd (ground (arith, e, other))
        | inr same ↦
            let own : q ≡ p = ground (arith, e, same) in
            (
              ap success own,
              sym (ap (λ (x : PostPayload). message_tag x.message_id) own)
                  ∙ ground (arith, same, list_beq_iff (message_tag q.message_id) slot.tag),
              sym (ap (λ (x : PostPayload). x.sender_sequence) own)
                  ∙ ground (arith, same, nat_beq_iff q.sender_sequence slot.sender_sequence),
            )
      ]

finish_frames-Answers :
    (r : Reassembler) (index : ℕ) (slot : Slot) (p : PostPayload) (canonical : Bytes)
    (frames : Result (List Bytes) FrameCodecError)
    → belongs slot (decode_post (some canonical)) ≡ some p
    → Answers slot.tag slot.sender_sequence (finish_frames r index slot p canonical frames).0
unfolding finish_frames
finish_frames-Answers r index slot p canonical (failure error) e c f = absurd (cc f)
finish_frames-Answers r index slot p canonical (success frames) e c f =
    let (decoded, tag_same, sequence_same) = belongs-some slot (decode_post (some canonical)) p e in
    let it = injective f in
    subst (IsAuthentic slot.tag slot.sender_sequence) it
      (record { decoded = decoded; tag_same = tag_same; sequence_same = sequence_same })
  where
    injective : {x y : CompletedPost} → ◌≡◌ {A = Option CompletedPost} (some x) (some y) → x ≡ y
    injective e = cc e

finish_post-Answers :
    (r : Reassembler) (index : ℕ) (slot : Slot) (canonical : Bytes) (post : Option PostPayload)
    → belongs slot (decode_post (some canonical)) ≡ post
    → Answers slot.tag slot.sender_sequence (finish_post r index slot canonical post).0
unfolding finish_post
finish_post-Answers r index slot canonical none e c f = absurd (cc f)
finish_post-Answers r index slot canonical (some p) e c f =
    finish_frames-Answers r index slot p canonical
      (canonical_frames_loop (canonical_frame r slot) r.mtu slot.fragment_count 0) e c f

store_fragment-Answers :
    (r : Reassembler) (index : ℕ) (slot : Slot) (frame : DataFrame)
    → Answers slot.tag slot.sender_sequence (store_fragment r index slot frame).0
unfolding store_fragment finish
store_fragment-Answers r index slot frame =
    elim (Bool-cases (has_fragment slot.received_bitmap frame.fragment_index)) [
      | inl old ↦ elim (Bool-cases (is_identical r slot frame)) [
        | inl same ↦ rw (old, same) (λ c f. absurd (cc f))
        | inr other ↦ rw (old, other) (λ c f. absurd (cc f))
      ]
      | inr new ↦
          let s = stored r slot frame in
          elim (Bool-cases (s.received_bitmap == complete_mask frame.fragment_count)) [
            | inr more ↦ rw (new, more) (λ c f. absurd (cc f))
            | inl full ↦
                rw (new, full)
                  (finish_post-Answers (with_slot r index s) index s
                    (take slot.total_length s.bytes)
                    (belongs s (decode_post (some (take slot.total_length s.bytes)))) refl)
          ]
    ]

accept_free-Answers :
    (r : Reassembler) (frame : DataFrame) (now : ℕ) (o : Option (ℕ × Slot))
    → Answers frame.tag frame.sender_sequence (accept_free r frame now o).0
unfolding accept_free open_slot
accept_free-Answers r frame now none c f = absurd (cc f)
accept_free-Answers r frame now (some (index, slot)) c f =
    store_fragment-Answers (opened r index (open_slot slot frame now)) index
      (open_slot slot frame now) frame c f

accept_found-Answers :
    (r : Reassembler) (frame : DataFrame) (now : ℕ) (o : Option (ℕ × Slot))
    → find_slot (slot_has_key frame.tag frame.sender_sequence) r.slots ≡ o
    → Answers frame.tag frame.sender_sequence (accept_found r frame now o).0
unfolding accept_found
accept_found-Answers r frame now none e =
    accept_free-Answers r frame now (find_slot is_free r.slots)
accept_found-Answers r frame now (some (index, slot)) e =
    let keyed =
      (find_slot-test (slot_has_key frame.tag frame.sender_sequence) r.slots index slot e).0 in
    elim (Bool-cases (
      not (slot.total_length == frame.total_length)
      || not (slot.fragment_count == frame.fragment_count))) [
        | inl differs ↦ rw differs (λ c f. absurd (cc f))
        | inr same ↦ rw same (
            IsAuthentic-key slot.tag frame.tag slot.sender_sequence frame.sender_sequence
              (store_fragment r index slot frame).0
              (ground (arith, keyed, list_beq_iff slot.tag frame.tag))
              (ground (arith, keyed, nat_beq_iff slot.sender_sequence frame.sender_sequence))
              (store_fragment-Answers r index slot frame))
      ]

accept_live-Answers :
    (r : Reassembler) (frame : DataFrame) (now : ℕ)
    → Answers frame.tag frame.sender_sequence (accept_live r frame now).0
unfolding accept_live accept_key
accept_live-Answers r frame now = elim (Bool-cases (has_bad_fields r frame)) [
  | inl bad ↦ rw bad (λ c f. absurd (cc f))
  | inr fields ↦ elim (Bool-cases (has_bad_size r frame)) [
    | inl bad ↦ rw (fields, bad) (λ c f. absurd (cc f))
    | inr size ↦
        elim (Bool-cases (any_key (fresh_keys now r).quarantine frame.tag frame.sender_sequence)) [
          | inl quarantined ↦ rw (fields, size, quarantined) (λ c f. absurd (cc f))
          | inr fresh ↦
              rw (fields, size, fresh)
                (accept_found-Answers (fresh_keys now r) frame now
                  (find_slot (slot_has_key frame.tag frame.sender_sequence) r.slots) refl)
        ]
  ]
]

-- A post that any call answers with, whatever the reassembler holds and whatever the datagrams were,
-- is what the answered bytes decode to, and it has the message tag and the sender sequence of the
-- datagram that completed it.
pub accept-IsAuthentic :
    (r : Reassembler) (frame : DataFrame) (now : ℕ) (c : CompletedPost)
    → (accept r frame now).0.completed ≡ some c
    → IsAuthentic frame.tag frame.sender_sequence c
unfolding accept
accept-IsAuthentic r frame now = accept_live-Answers (expire now r).0 frame now
