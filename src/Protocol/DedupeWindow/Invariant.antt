-- ===== src/Protocol/DedupeWindow/Invariant.antt =====
-- What holds of every window, and that `remember` keeps it.
use lora_messenger.Common.{
  ℕ, ◌+◌, ◌%◌, ◌^◌, ◌<◌, ◌≤◌, ◌≡◌, refl, ap, true, false, none, some, List, [], ◌∷◌, ◌++◌, length,
  ◌==◌, nat_eq, list_eq, All, All-append, arith, Bool-cases, Option-cases, inl, inr, length-append,
}
use lora_messenger.Core.Uuid.{MessageId, message_id_eq}
use lora_messenger.Model.Post.{PostPayload, post_eq}
use lora_messenger.Protocol.Limits.{Bytes}
use lora_messenger.Protocol.DedupeWindow.{
  SeenMessageRecord, MessageDedupeWindow, is_canonical_record, is_protected, find_record,
  evict_record, push_record,
}

abbrev pub Rising : ℕ → List SeenMessageRecord → ℕ → Type 0
Rising low [] high = low ≤ high
Rising low (seen ∷ rest) high = (low < seen.seen_order) × Rising seen.seen_order rest high

abbrev pub Distinct : List SeenMessageRecord → Type 0
Distinct [] = Unit {0}
Distinct (seen ∷ rest) = (find_record rest seen.message_id ≡ none) × Distinct rest

abbrev pub IsCanonical : SeenMessageRecord → Type 0
IsCanonical seen = is_canonical_record seen ≡ true

pub record IsWindow (w : MessageDedupeWindow) : Type 0 where
  pub capacity_pos : 0 < w.capacity
  pub size_le : length w.records ≤ w.capacity
  pub order_range : w.last_seen_order < 2 ^ 64
  pub ordered : Rising 0 w.records w.last_seen_order
  pub distinct : Distinct w.records
  pub canonical : All IsCanonical w.records

Rising-append :
    (low high : ℕ) (es : List SeenMessageRecord) (seen : SeenMessageRecord)
    → Rising low es high
    → high < seen.seen_order
    → Rising low (es ++ (seen ∷ [])) seen.seen_order
Rising-append low high [] seen h k = (omega arith, omega arith)
Rising-append low high (e ∷ es) seen h k = (h.0, Rising-append e.seen_order high es seen h.1 k)

Rising-lower :
    (low lower high : ℕ) (es : List SeenMessageRecord)
    → lower ≤ low
    → Rising low es high
    → Rising lower es high
Rising-lower low lower high [] h k = omega arith
Rising-lower low lower high (e ∷ es) h k = (omega (arith, k.0), k.1)

find_record-append :
    (es : List SeenMessageRecord) (seen : SeenMessageRecord) (id : MessageId)
    → find_record es id ≡ none
    → (seen.message_id == id) ≡ false
    → find_record (es ++ (seen ∷ [])) id ≡ none
unfolding find_record
find_record-append [] seen id h k = rw k refl
find_record-append (e ∷ es) seen id h k = ground (arith, h, k, find_record-append es seen id)

Distinct-append :
    (es : List SeenMessageRecord) (seen : SeenMessageRecord)
    → Distinct es
    → find_record es seen.message_id ≡ none
    → Distinct (es ++ (seen ∷ []))
unfolding find_record
Distinct-append [] seen h k = (refl, tt)
Distinct-append (e ∷ es) seen h k = (
  find_record-append es seen e.message_id h.0 (
      ground (
        arith,
        k,
        message_id_eq.beq_iff e.message_id seen.message_id,
        message_id_eq.beq_iff seen.message_id e.message_id,
      )),
  Distinct-append es seen h.1 (ground (arith, k)),
)

-- What is left after an eviction.
pub record Evicted (protected : List MessageId) (es kept : List SeenMessageRecord) : Type 0 where
  pub fewer : length kept + 1 ≡ length es
  pub still_rising : (low high : ℕ) → Rising low es high → Rising low kept high
  pub still_canonical : All IsCanonical es → All IsCanonical kept
  pub still_absent : (id : MessageId) → find_record es id ≡ none → find_record kept id ≡ none
  pub still_there :
      (id : MessageId) (seen : SeenMessageRecord)
      → is_protected seen.message_id protected ≡ true
      → find_record es id ≡ some seen
      → find_record kept id ≡ some seen
  pub still_distinct : Distinct es → Distinct kept

pub evict_record-Evicted :
    (protected : List MessageId) (es kept : List SeenMessageRecord)
    → evict_record protected es ≡ some kept
    → Evicted protected es kept
unfolding evict_record find_record
evict_record-Evicted protected [] kept e = absurd (cc e)
evict_record-Evicted protected (x ∷ es) kept e =
    elim (Bool-cases (is_protected x.message_id protected)) [
      | inr free ↦
          let it : es ≡ kept = ground (arith, e, free) in
          rw (← it) (record {
            fewer = omega arith;
            still_rising =
                λ low high h. Rising-lower x.seen_order low high es (omega (arith, h.0)) h.1;
            still_canonical = λ h. h.1;
            still_absent = λ id h. ground (arith, h);
            still_there = λ id seen p h. elim (Bool-cases (x.message_id == id)) [
              | inl same ↦
                  (let it : x ≡ seen = ground (arith, h, same) in
                    absurd (
                      cc (
                        free,
                        p,
                        ap (λ (r : SeenMessageRecord). is_protected r.message_id protected) it,
                      )))
              | inr other ↦ ground (arith, h, other)
            ];
            still_distinct = λ h. h.1;
          })
      | inl fixed ↦ elim (Option-cases (evict_record protected es)) [
        | inl nothing ↦ absurd (ground (arith, e, fixed, nothing))
        | inr (rest, found) ↦
            let it : x ∷ rest ≡ kept = ground (arith, e, fixed, found) in
            let ih = evict_record-Evicted protected es rest found in
            rw (← it) (record {
              fewer = omega (arith, ih.fewer);
              still_rising = λ low high h. (h.0, ih.still_rising x.seen_order high h.1);
              still_canonical = λ h. (h.0, ih.still_canonical h.1);
              still_absent = λ id h. ground (arith, h, ih.still_absent id);
              still_there = λ id seen p h. ground (arith, h, p, ih.still_there id seen);
              still_distinct = λ h. (ih.still_absent x.message_id h.0, ih.still_distinct h.1);
            })
      ]
    ]

-- The window with a new record, behind those that `kept` leaves.
pub push_record-IsWindow :
    (w : MessageDedupeWindow) (post : PostPayload) (bytes : Bytes) (kept : List SeenMessageRecord)
    → IsWindow w
    → w.last_seen_order + 1 < 2 ^ 64
    → length kept < w.capacity
    → Rising 0 kept w.last_seen_order
    → Distinct kept
    → All IsCanonical kept
    → find_record kept post.message_id ≡ none
    → ((order : ℕ)
        → 0 < order
        → is_canonical_record
            (record { message_id = post.message_id; seen_order = order; encoded_post = bytes })
          ≡ true)
    → IsWindow (push_record w post bytes kept)
push_record-IsWindow w post bytes kept v left room rising distinct all absent fresh =
    let next : (w.last_seen_order + 1) % 2 ^ 64 ≡ w.last_seen_order + 1 = omega (arith, left) in
    let seen : SeenMessageRecord = record {
      message_id = post.message_id;
      seen_order = (w.last_seen_order + 1) % 2 ^ 64;
      encoded_post = bytes;
    } in
    record {
      capacity_pos = v.capacity_pos;
      size_le = omega (arith, length-append kept (seen ∷ []), room);
      order_range = omega (arith, left);
      ordered = Rising-append 0 w.last_seen_order kept seen rising (omega (arith, next));
      distinct = Distinct-append kept seen distinct absent;
      canonical =
          All-append IsCanonical kept (seen ∷ []) all
            (fresh ((w.last_seen_order + 1) % 2 ^ 64) (omega (arith, next)), tt);
    }
