-- ===== src/Model/Timeline/Entries.antt =====
-- Lists of timeline entries: orders, identifiers, and what eviction leaves.
use lora_messenger.Common.{
  ℕ, zero, suc, ◌+◌, ◌<◌, ◌≤◌, ◌≡◌, refl, false, ◌||◌, none, List, [], ◌∷◌, ◌++◌, arith,
}
use lora_messenger.Core.Uuid.{MessageId, message_id_eq}
use lora_messenger.Model.Timeline.{erase}
use lora_messenger.Model.Timeline.State.{TimelineEntry, has_id, queued_count, find, any_with_id}

-- Orders rise from above `low` up to `high`.
abbrev pub Rising : ℕ → List TimelineEntry → ℕ → Type 0
Rising low [] high = low ≤ high
Rising low (entry ∷ rest) high =
    (low < entry.received_order) × Rising entry.received_order rest high

-- No two entries have the same identifier.
abbrev pub Distinct : List TimelineEntry → Type 0
Distinct [] = Unit {0}
Distinct (entry ∷ rest) = (any_with_id rest entry.post.message_id ≡ false) × Distinct rest

pub Rising-append :
    (low high : ℕ) (es : List TimelineEntry) (entry : TimelineEntry)
    → Rising low es high
    → high < entry.received_order
    → Rising low (es ++ (entry ∷ [])) entry.received_order
Rising-append low high [] entry h k = (omega arith, omega arith)
Rising-append low high (e ∷ es) entry h k =
    (h.0, Rising-append e.received_order high es entry h.1 k)

Rising-lower :
    (low lower high : ℕ) (es : List TimelineEntry)
    → lower ≤ low
    → Rising low es high
    → Rising lower es high
Rising-lower low lower high [] h k = omega arith
Rising-lower low lower high (e ∷ es) h k = (omega (arith, k.0), k.1)

pub Rising-erase :
    (low high : ℕ) (es : List TimelineEntry) (i : ℕ)
    → Rising low es high
    → Rising low (erase es i) high
Rising-erase low high [] i h = h
Rising-erase low high (e ∷ es) zero h =
    Rising-lower e.received_order low high es (omega (arith, h.0)) h.1
Rising-erase low high (e ∷ es) (suc i) h = (h.0, Rising-erase e.received_order high es i h.1)

pub any_with_id-erase :
    (es : List TimelineEntry) (i : ℕ) (id : MessageId)
    → any_with_id es id ≡ false
    → any_with_id (erase es i) id ≡ false
unfolding any_with_id
any_with_id-erase [] i id h = h
any_with_id-erase (e ∷ es) zero id h = ground (arith, h)
any_with_id-erase (e ∷ es) (suc i) id h = ground (arith, h, any_with_id-erase es i id)

pub any_with_id-append :
    (es : List TimelineEntry) (entry : TimelineEntry) (id : MessageId)
    → any_with_id (es ++ (entry ∷ [])) id ≡ (any_with_id es id || has_id id entry)
unfolding any_with_id
any_with_id-append [] entry id = ground arith
any_with_id-append (e ∷ es) entry id = ground (arith, any_with_id-append es entry id)

pub Distinct-erase : (es : List TimelineEntry) (i : ℕ) → Distinct es → Distinct (erase es i)
Distinct-erase [] i h = h
Distinct-erase (e ∷ es) zero h = h.1
Distinct-erase (e ∷ es) (suc i) h =
    (any_with_id-erase es i e.post.message_id h.0, Distinct-erase es i h.1)

pub find-any_with_id :
    (es : List TimelineEntry) (id : MessageId) → find es id ≡ none → any_with_id es id ≡ false
unfolding find any_with_id
find-any_with_id [] id h = refl
find-any_with_id (e ∷ es) id h = ground (arith, h, find-any_with_id es id)

pub Distinct-append :
    (es : List TimelineEntry) (entry : TimelineEntry)
    → Distinct es
    → any_with_id es entry.post.message_id ≡ false
    → Distinct (es ++ (entry ∷ []))
unfolding any_with_id
Distinct-append [] entry h k = (refl, tt)
Distinct-append (e ∷ es) entry h k = (
  ground (
    arith,
    k,
    h.0,
    any_with_id-append es entry e.post.message_id,
    message_id_eq.beq_iff e.post.message_id entry.post.message_id,
    message_id_eq.beq_iff entry.post.message_id e.post.message_id,
  ),
  Distinct-append es entry h.1 (ground (arith, k)),
)

pub queued_count-append :
    (es : List TimelineEntry) (entry : TimelineEntry)
    → queued_count (es ++ (entry ∷ [])) ≡ queued_count es + queued_count (entry ∷ [])
unfolding queued_count
queued_count-append [] entry = ground arith
queued_count-append (e ∷ es) entry = ground (arith, queued_count-append es entry)
