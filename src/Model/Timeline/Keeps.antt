-- ===== src/Model/Timeline/Keeps.antt =====
-- What an insertion keeps, and when it is refused.
use lora_messenger.Common.{
  ℕ, zero, suc, ◌+◌, ◌%◌, ◌^◌, ◌<◌, ◌≡◌, refl, ap, ◌∙◌, true, Option, none, some, List, [], ◌∷◌,
  ◌++◌, length, ◌==◌, nat_eq, arith, Bool-cases, inl, inr, Option-cases, ==_refl,
}
use lora_messenger.Core.Uuid.{MessageId, message_id_eq}
use lora_messenger.Model.Post.{PostPayload, post_eq}
use lora_messenger.Model.Timeline.{
  is_kept, eviction_index, erase, make_room, insertion_availability, append_entry, insert,
  insert_received, refused,
}
use lora_messenger.Model.Timeline.State.{
  TimelineEntry, Timeline, EntryOrigin, received_origin, is_queued, find, duplicate,
}
use lora_messenger.Model.Timeline.Entries.{Distinct}
use lora_messenger.Model.Timeline.Evict.{find-erase, eviction_index-none}
use lora_messenger.Model.Timeline.Invariant.{
  IsTimeline, order_left, outcome, known, no_queue, unavailable, appended,
}

find-append :
    (es : List TimelineEntry) (entry : TimelineEntry) (id : MessageId) (e : TimelineEntry)
    → find es id ≡ some e
    → find (es ++ (entry ∷ [])) id ≡ some e
unfolding find
find-append [] entry id e h = absurd (cc h)
find-append (x ∷ es) entry id e h = ground (arith, h, find-append es entry id e)

find_last :
    (es : List TimelineEntry) (entry : TimelineEntry)
    → find es entry.post.message_id ≡ none
    → find (es ++ (entry ∷ [])) entry.post.message_id ≡ some entry
unfolding find
find_last [] entry h = rw (==_refl entry.post.message_id)
find_last (x ∷ es) entry h = ground (arith, h, find_last es entry)

find-erase-none :
    (es : List TimelineEntry) (i : ℕ) (id : MessageId)
    → find es id ≡ none
    → find (erase es i) id ≡ none
unfolding find
find-erase-none [] i id h = h
find-erase-none (e ∷ es) zero id h = ground (arith, h)
find-erase-none (e ∷ es) (suc i) id h = ground (arith, h, find-erase-none es i id)

find-make_room :
    (t : Timeline) (protected : Option MessageId) (id : MessageId) (e : TimelineEntry)
    → Distinct t.entries
    → find t.entries id ≡ some e
    → is_kept protected e ≡ true
    → find (make_room t protected).1 id ≡ some e
unfolding make_room
find-make_room t protected id e d h k = elim (Bool-cases (length t.entries == t.capacity)) [
  | inr less ↦ rw less h
  | inl full ↦ elim (Option-cases (eviction_index protected t.entries)) [
    | inl nothing ↦ rw (full, nothing) h
    | inr (i, found) ↦ rw (full, found) (find-erase protected t.entries i id e found d h k)
  ]
]

find-make_room-none :
    (t : Timeline) (protected : Option MessageId) (id : MessageId)
    → find t.entries id ≡ none
    → find (make_room t protected).1 id ≡ none
unfolding make_room
find-make_room-none t protected id h = elim (Bool-cases (length t.entries == t.capacity)) [
  | inr less ↦ rw less h
  | inl full ↦ elim (Option-cases (eviction_index protected t.entries)) [
    | inl nothing ↦ rw (full, nothing) h
    | inr (i, found) ↦ rw (full, found) (find-erase-none t.entries i id h)
  ]
]

-- Whatever comes of an insertion in a timeline with the invariant, a queued entry and the protected one are still found unchanged.
pub insert-keeps :
    (t : Timeline) (post : PostPayload) (origin : EntryOrigin) (protected : Option MessageId)
    (id : MessageId) (e : TimelineEntry)
    → IsTimeline t
    → find t.entries id ≡ some e
    → is_kept protected e ≡ true
    → find (insert t post origin protected).1.entries id ≡ some e
unfolding append_entry
insert-keeps t post origin protected id e v h k = elim (outcome t post origin protected) [
  | known existing here r ↦ rw r h
  | no_queue absent is_queued full r ↦ rw r h
  | unavailable error absent a r ↦ rw r h
  | appended absent room a r ↦ rw r (
      find-append (make_room t protected).1 _ id e (find-make_room t protected id e v.distinct h k))
]

-- After an insertion without an error, in a timeline with the invariant, the entry is found under its identifier, with the next order.
pub insert-finds :
    (t : Timeline) (post : PostPayload) (origin : EntryOrigin) (protected : Option MessageId)
    → IsTimeline t
    → (insert t post origin protected).0.error ≡ none
    → find (insert t post origin protected).1.entries post.message_id
      ≡ some (record { post = post; received_order = t.last_assigned_order + 1; origin = origin })
unfolding append_entry
insert-finds t post origin protected v ok = elim (outcome t post origin protected) [
  | known existing here r ↦ absurd (cc (ok, ap (λ x. x.0.error) r))
  | no_queue absent is_queued full r ↦ absurd (cc (ok, ap (λ x. x.0.error) r))
  | unavailable error absent a r ↦ absurd (cc (ok, ap (λ x. x.0.error) r))
  | appended absent room a r ↦
      let left = order_left t protected v a in
      let next : (t.last_assigned_order + 1) % 2 ^ 64 ≡ t.last_assigned_order + 1 =
        omega (arith, left) in
      rw r (
        find_last (make_room t protected).1 _
          (find-make_room-none t protected post.message_id absent)
        ∙ rw next refl)
]

-- A received post that is not on a timeline with the invariant is never refused while orders are
-- left: a full timeline always has an entry to evict.
pub insert_received_new :
    (t : Timeline) (post : PostPayload)
    → IsTimeline t
    → t.last_assigned_order + 1 < 2 ^ 64
    → find t.entries post.message_id ≡ none
    → (insert_received t post).0.error ≡ none
unfolding insert_received append_entry insertion_availability
insert_received_new t post v h absent = elim (outcome t post received_origin none) [
  | known existing here r ↦ absurd (cc (here, absent))
  | no_queue absent is_queued full r ↦ absurd (cc is_queued)
  | unavailable error absent a r ↦ elim (Option-cases (eviction_index none t.entries)) [
    | inl nothing ↦ absurd (
        ground (
          arith,
          a,
          h,
          nothing,
          eviction_index-none t.entries nothing,
          v.queued_le,
          v.size_le,
          v.capacity_pos,
        ))
    | inr (i, found) ↦ absurd (ground (arith, a, h, found))
  ]
  | appended absent room a r ↦ rw r refl
]

-- A post that was just inserted, in a timeline with the invariant, is refused as a duplicate when it is inserted again, and then nothing
-- changes.
pub insert_twice :
    (t : Timeline) (post : PostPayload) (origin again : EntryOrigin)
    (protected other : Option MessageId)
    → IsTimeline t
    → (insert t post origin protected).0.error ≡ none
    → insert (insert t post origin protected).1 post again other
      ≡ (refused duplicate, (insert t post origin protected).1)
insert_twice t post origin again protected other v ok =
    let now = (insert t post origin protected).1 in
    let here = insert-finds t post origin protected v ok in
    elim (outcome now post again other) [
      | known existing found r ↦
          let same : existing.post ≡ post = cc (here, found) in r ∙ rw same (rw (==_refl post) refl)
      | no_queue absent is_queued full r ↦ absurd (cc (here, absent))
      | unavailable error absent a r ↦ absurd (cc (here, absent))
      | appended absent room a r ↦ absurd (cc (here, absent))
    ]
