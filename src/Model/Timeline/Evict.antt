-- ===== src/Model/Timeline/Evict.antt =====
-- `eviction_index` and the eviction that `insert` makes of it.
use lora_messenger.Common.{
  ℕ, suc, ◌+◌, ◌≤◌, ◌≡◌, refl, true, false, Option, none, some, List, [], ◌∷◌, length, nat_eq,
  arith, Bool-cases, inl, inr, Option-cases, subst,
}
use lora_messenger.Core.Uuid.{MessageId, message_id_eq}
use lora_messenger.Model.Timeline.{is_kept, eviction_index, erase}
use lora_messenger.Model.Timeline.State.{TimelineEntry, has_id, queued_count, find}
use lora_messenger.Model.Timeline.Entries.{Distinct}

pub queued_count-le : (es : List TimelineEntry) → queued_count es ≤ length es
unfolding queued_count
queued_count-le [] = omega arith
queued_count-le (e ∷ es) = ground (arith, queued_count-le es)

pub length-erase :
    (protected : Option MessageId) (es : List TimelineEntry) (i : ℕ)
    → eviction_index protected es ≡ some i
    → length (erase es i) + 1 ≡ length es
unfolding eviction_index
length-erase protected [] i h = absurd (cc h)
length-erase protected (e ∷ es) i h = elim (Bool-cases (is_kept protected e)) [
  | inr free ↦ let first : i ≡ 0 = ground (arith, h, free) in rw first (omega arith)
  | inl kept ↦ elim (Option-cases (eviction_index protected es)) [
    | inl nothing ↦ ground (arith, h, kept, nothing)
    | inr (j, found) ↦
        let later : i ≡ suc j = ground (arith, h, kept, found) in
        rw later (omega (arith, length-erase protected es j found))
  ]
]

-- Eviction leaves every entry that it may not take, and the number of queued ones.
pub queued_count-erase :
    (protected : Option MessageId) (es : List TimelineEntry) (i : ℕ)
    → eviction_index protected es ≡ some i
    → queued_count (erase es i) ≡ queued_count es
unfolding eviction_index queued_count
queued_count-erase protected [] i h = absurd (cc h)
queued_count-erase none (e ∷ es) i h = elim (Bool-cases (is_kept none e)) [
  | inr free ↦ let first : i ≡ 0 = ground (arith, h, free) in rw (first, free) refl
  | inl kept ↦ elim (Option-cases (eviction_index none es)) [
    | inl nothing ↦ ground (arith, h, kept, nothing)
    | inr (j, found) ↦
        let later : i ≡ suc j = ground (arith, h, kept, found) in
        rw later (ground (arith, queued_count-erase none es j found))
  ]
]
queued_count-erase (some p) (e ∷ es) i h = elim (Bool-cases (is_kept (some p) e)) [
  | inr free ↦ let first : i ≡ 0 = ground (arith, h, free) in rw first (ground (arith, free))
  | inl kept ↦ elim (Option-cases (eviction_index (some p) es)) [
    | inl nothing ↦ ground (arith, h, kept, nothing)
    | inr (j, found) ↦
        let later : i ≡ suc j = ground (arith, h, kept, found) in
        rw later (ground (arith, queued_count-erase (some p) es j found))
  ]
]

-- Nothing can be evicted only where every entry is queued.
pub eviction_index-none :
    (es : List TimelineEntry) → eviction_index none es ≡ none → queued_count es ≡ length es
unfolding eviction_index queued_count
eviction_index-none [] h = refl
eviction_index-none (e ∷ es) h = elim (Option-cases (eviction_index none es)) [
  | inl nothing ↦ ground (arith, h, nothing, eviction_index-none es nothing)
  | inr (j, found) ↦ ground (arith, h, found)
]

-- An entry that may not be evicted is found after the eviction as before.
pub find-erase :
    (protected : Option MessageId) (es : List TimelineEntry) (i : ℕ) (id : MessageId)
    (kept : TimelineEntry)
    → eviction_index protected es ≡ some i
    → Distinct es
    → find es id ≡ some kept
    → is_kept protected kept ≡ true
    → find (erase es i) id ≡ some kept
unfolding eviction_index find
find-erase protected [] i id kept h d f k = absurd (cc h)
find-erase protected (e ∷ es) i id kept h d f k = elim (Bool-cases (is_kept protected e)) [
  | inr free ↦
      let first : i ≡ 0 = ground (arith, h, free) in
      elim (Bool-cases (has_id id e)) [
        | inl same ↦
            let it : e ≡ kept = cc (rw same at f) in
            absurd (cc (subst (λ (x : TimelineEntry). is_kept protected x ≡ false) it free, k))
        | inr other ↦ rw first (rw other at f)
      ]
  | inl fixed ↦ elim (Option-cases (eviction_index protected es)) [
    | inl nothing ↦ ground (arith, h, fixed, nothing)
    | inr (j, found) ↦
        let later : i ≡ suc j = ground (arith, h, fixed, found) in
        rw later (elim (Bool-cases (has_id id e)) [
          | inl same ↦ rw same (rw same at f)
          | inr other ↦ rw other (find-erase protected es j id kept found d.1 (rw other at f) k)
        ])
  ]
]
