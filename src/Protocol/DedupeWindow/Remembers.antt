-- ===== src/Protocol/DedupeWindow/Remembers.antt =====
-- What `remember` does.
use lora_messenger.Common.{
  ℕ, ◌-◌, ◌^◌, ◌<◌, ◌≡◌, refl, ap, ◌∙◌, true, false, none, some, List, [], ◌∷◌, ◌++◌, length, leb,
  ◌==◌, nat_eq, list_eq, list_beq_iff, arith, Bool-cases, Option-cases, inl, inr, ==_refl,
}
use lora_messenger.Core.Result.{Result, success, failure}
use lora_messenger.Core.Uuid.{MessageId, message_id_eq}
use lora_messenger.Model.Post.{PostPayload, post_eq, post_beq_iff}
use lora_messenger.Protocol.Limits.{Bytes}
use lora_messenger.Protocol.PostCodec.{PostCodecError, encode_post, decode_post}
use lora_messenger.Protocol.DedupeWindow.{
  SeenMessageRecord, MessageDedupeWindow, invalid_record, duplicate_message_id, order_exhausted,
  protected_capacity, duplicate, encodes_to, decodes_to, is_canonical, is_canonical_record,
  is_protected, find_record, classify, evict_record, push_record, remember_new, remember,
}
use lora_messenger.Protocol.DedupeWindow.Invariant.{
  IsWindow, evict_record-Evicted, push_record-IsWindow,
}

-- The bytes are what the post is encoded to, and they are read back as the post.
pub record Encodes (post : PostPayload) (bytes : Bytes) : Type 0 where
  pub decoded : decode_post (some bytes) ≡ success post
  pub encoded : encode_post post ≡ success bytes

decodes_to-Encodes :
    (r : Result PostPayload PostCodecError) (post : PostPayload)
    → decodes_to r post ≡ true
    → r ≡ success post
decodes_to-Encodes (success p) post h = ap success ((post_beq_iff p post).0 h)
decodes_to-Encodes (failure e) post h = absurd (cc h)

encodes_to-Encodes :
    (r : Result Bytes PostCodecError) (bytes : Bytes)
    → encodes_to r bytes ≡ true
    → r ≡ success bytes
encodes_to-Encodes (success b) bytes h = ap success ((list_beq_iff b bytes).0 h)
encodes_to-Encodes (failure e) bytes h = absurd (cc h)

fresh_record :
    (post : PostPayload) (bytes : Bytes)
    → Encodes post bytes
    → (order : ℕ) → 0 < order
    → is_canonical_record
        (record { message_id = post.message_id; seen_order = order; encoded_post = bytes })
      ≡ true
unfolding is_canonical_record is_canonical
fresh_record post bytes c order h =
    let positive : (order == 0) ≡ false = ground (arith, h) in
    rw (positive, c.decoded, ==_refl post.message_id, c.encoded, ==_refl bytes) refl

-- The ways of `remember`, in the order of its tests.
pub data Outcome (w : MessageDedupeWindow) (post : PostPayload) (bytes : Bytes)
    (protected : List MessageId) : Type 0 where
  refused :
      remember w post bytes protected ≡ (some invalid_record, w) → Outcome w post bytes protected
  known :
      (seen : SeenMessageRecord)
      → Encodes post bytes
      → find_record w.records post.message_id ≡ some seen
      → seen.encoded_post ≡ bytes
      → remember w post bytes protected ≡ (none, w)
      → Outcome w post bytes protected
  contradicted :
      (seen : SeenMessageRecord)
      → Encodes post bytes
      → find_record w.records post.message_id ≡ some seen
      → remember w post bytes protected ≡ (some duplicate_message_id, w)
      → Outcome w post bytes protected
  exhausted :
      find_record w.records post.message_id ≡ none
      → (w.last_seen_order == 2 ^ 64 - 1) ≡ true
      → remember w post bytes protected ≡ (some order_exhausted, w)
      → Outcome w post bytes protected
  crowded :
      find_record w.records post.message_id ≡ none
      → evict_record protected w.records ≡ none
      → remember w post bytes protected ≡ (some protected_capacity, w)
      → Outcome w post bytes protected
  evicting :
      (kept : List SeenMessageRecord)
      → Encodes post bytes
      → find_record w.records post.message_id ≡ none
      → (w.last_seen_order == 2 ^ 64 - 1) ≡ false
      → evict_record protected w.records ≡ some kept
      → remember w post bytes protected ≡ (none, push_record w post bytes kept)
      → Outcome w post bytes protected
  adding :
      Encodes post bytes
      → find_record w.records post.message_id ≡ none
      → (w.last_seen_order == 2 ^ 64 - 1) ≡ false
      → length w.records < w.capacity
      → remember w post bytes protected ≡ (none, push_record w post bytes w.records)
      → Outcome w post bytes protected

module _ (w : MessageDedupeWindow) (post : PostPayload) (bytes : Bytes)
    (protected : List MessageId) where
  new_outcome :
      Encodes post bytes
      → find_record w.records post.message_id ≡ none
      → remember w post bytes protected ≡ remember_new w post bytes protected
      → Outcome w post bytes protected
  unfolding remember_new
  new_outcome c absent r = elim (Bool-cases (w.last_seen_order == 2 ^ 64 - 1)) [
    | inl last ↦ exhausted absent last (r ∙ ground (arith, last))
    | inr left ↦ elim (Bool-cases (leb w.capacity (length w.records))) [
      | inr room ↦ adding c absent left (ground (arith, room)) (r ∙ ground (arith, left, room))
      | inl full ↦ elim (Option-cases (evict_record protected w.records)) [
        | inl nothing ↦ crowded absent nothing (r ∙ ground (arith, left, full, nothing))
        | inr (kept, found) ↦
            evicting kept c absent left found (r ∙ ground (arith, left, full, found))
      ]
    ]
  ]

  pub outcome : Outcome w post bytes protected
  unfolding remember classify
  outcome = elim (Bool-cases (decodes_to (decode_post (some bytes)) post)) [
    | inr bad ↦ refused (ground (arith, bad))
    | inl good ↦ elim (Bool-cases (encodes_to (encode_post post) bytes)) [
      | inr bad ↦ refused (ground (arith, good, bad))
      | inl fine ↦
          let c : Encodes post bytes = record {
            decoded = decodes_to-Encodes (decode_post (some bytes)) post good;
            encoded = encodes_to-Encodes (encode_post post) bytes fine;
          } in
          elim (Option-cases (find_record w.records post.message_id)) [
            | inl absent ↦ new_outcome c absent (ground (arith, good, fine, absent))
            | inr (seen, found) ↦ elim (Bool-cases (seen.encoded_post == bytes)) [
              | inl same ↦
                  known seen c found ((list_beq_iff seen.encoded_post bytes).0 same)
                    (ground (arith, good, fine, found, same))
              | inr other ↦ contradicted seen c found (ground (arith, good, fine, found, other))
            ]
          ]
    ]
  ]

  -- Whatever comes of it, `remember` keeps the invariant.
  pub remember-IsWindow : IsWindow w → IsWindow (remember w post bytes protected).1
  remember-IsWindow v = elim outcome [
    | refused r ↦ rw r v
    | known seen c found same r ↦ rw r v
    | contradicted seen c found r ↦ rw r v
    | exhausted absent last r ↦ rw r v
    | crowded absent nothing r ↦ rw r v
    | evicting kept c absent left found r ↦
        let k = evict_record-Evicted protected w.records kept found in
        rw r (
          push_record-IsWindow w post bytes kept v (ground (arith, left, v.order_range))
            (omega (arith, k.fewer, v.size_le)) (k.still_rising 0 w.last_seen_order v.ordered)
            (k.still_distinct v.distinct) (k.still_canonical v.canonical)
            (k.still_absent post.message_id absent) (fresh_record post bytes c))
    | adding c absent left room r ↦ rw r (
        push_record-IsWindow w post bytes w.records v (ground (arith, left, v.order_range)) room
          v.ordered v.distinct v.canonical absent (fresh_record post bytes c))
  ]

find_record-append_some :
    (es : List SeenMessageRecord) (last : SeenMessageRecord) (id : MessageId)
    (seen : SeenMessageRecord)
    → find_record es id ≡ some seen
    → find_record (es ++ (last ∷ [])) id ≡ some seen
unfolding find_record
find_record-append_some [] last id seen h = absurd (cc h)
find_record-append_some (e ∷ es) last id seen h =
    ground (arith, h, find_record-append_some es last id seen)

find_record_last :
    (es : List SeenMessageRecord) (last : SeenMessageRecord)
    → find_record es last.message_id ≡ none
    → find_record (es ++ (last ∷ [])) last.message_id ≡ some last
unfolding find_record
find_record_last [] last h = rw (==_refl last.message_id) refl
find_record_last (e ∷ es) last h = ground (arith, h, find_record_last es last)

classify-duplicate :
    (w : MessageDedupeWindow) (id : MessageId) (bytes : Bytes) (seen : SeenMessageRecord)
    → find_record w.records id ≡ some seen
    → seen.encoded_post ≡ bytes
    → classify w id bytes ≡ duplicate
unfolding classify
classify-duplicate w id bytes seen found same =
    let equal : (seen.encoded_post == bytes) ≡ true =
      (list_beq_iff seen.encoded_post bytes).1 same in
    ground (arith, found, equal)

module _ (w : MessageDedupeWindow) (post : PostPayload) (bytes : Bytes)
    (protected : List MessageId) where
  -- Once `remember` answers without an error, the message is classified as a duplicate.
  pub classify-remember :
      (remember w post bytes protected).0 ≡ none
      → classify (remember w post bytes protected).1 post.message_id bytes ≡ duplicate
  classify-remember ok = elim (outcome w post bytes protected) [
    | refused r ↦ absurd (cc (ok, ap (λ x. x.0) r))
    | known seen c found same r ↦ rw r (classify-duplicate w post.message_id bytes seen found same)
    | contradicted seen c found r ↦ absurd (cc (ok, ap (λ x. x.0) r))
    | exhausted absent last r ↦ absurd (cc (ok, ap (λ x. x.0) r))
    | crowded absent nothing r ↦ absurd (cc (ok, ap (λ x. x.0) r))
    | evicting kept c absent left found r ↦
        let k = evict_record-Evicted protected w.records kept found in
        rw r (
          classify-duplicate (push_record w post bytes kept) post.message_id bytes _
            (find_record_last kept _ (k.still_absent post.message_id absent)) refl)
    | adding c absent left room r ↦ rw r (
        classify-duplicate (push_record w post bytes w.records) post.message_id bytes _
          (find_record_last w.records _ absent) refl)
  ]

  -- `remember` never forgets a protected message.
  pub remember-keeps :
      (id : MessageId) (seen : SeenMessageRecord)
      → is_protected seen.message_id protected ≡ true
      → find_record w.records id ≡ some seen
      → find_record (remember w post bytes protected).1.records id ≡ some seen
  remember-keeps id seen p h = elim (outcome w post bytes protected) [
    | refused r ↦ rw r h
    | known other c found same r ↦ rw r h
    | contradicted other c found r ↦ rw r h
    | exhausted absent last r ↦ rw r h
    | crowded absent nothing r ↦ rw r h
    | evicting kept c absent left found r ↦
        let k = evict_record-Evicted protected w.records kept found in
        rw r (find_record-append_some kept _ id seen (k.still_there id seen p h))
    | adding c absent left room r ↦ rw r (find_record-append_some w.records _ id seen h)
  ]
