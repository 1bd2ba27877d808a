-- ===== src/Application/MessengerState/Local.antt =====
-- The sequence numbers of the posts of this device in a timeline.
use lora_messenger.Common.{
  ℕ, zero, suc, ◌≤◌, Bool-cases, Option-cases, inl, inr, Option, List, [], ◌∷◌, length, All,
  All-append, ◌==◌, nat_eq, arith,
}
use lora_messenger.Core.Uuid.{MessageId}
use lora_messenger.Model.Post.{PostPayload}
use lora_messenger.Model.Timeline.{
  erase, eviction_index, make_room, append_entry, insert, transition_entries, transition,
  step_state, same_state,
}
use lora_messenger.Model.Timeline.State.{
  Timeline, TimelineEntry, EntryOrigin, LocalDeliveryState, received_origin, local_delivery, has_id,
  is_queued_state,
}
use lora_messenger.Model.Timeline.Invariant.{outcome, known, no_queue, unavailable, appended}

-- A post of this device has a number up to this one.
abbrev pub OriginBelow : ℕ → EntryOrigin → ℕ → Type 0
OriginBelow last received_origin sequence = Unit {0}
OriginBelow last (local_delivery state) sequence = sequence ≤ last

abbrev pub EntryBelow : ℕ → TimelineEntry → Type 0
EntryBelow last entry = OriginBelow last entry.origin entry.post.sender_sequence

abbrev pub LocalBelow : ℕ → Timeline → Type 0
LocalBelow last t = All (EntryBelow last) t.entries

OriginBelow-more :
    (last more : ℕ) (origin : EntryOrigin) (n : ℕ)
    → last ≤ more
    → OriginBelow last origin n
    → OriginBelow more origin n
OriginBelow-more last more received_origin n h k = tt
OriginBelow-more last more (local_delivery state) n h k = omega arith

pub LocalBelow-more :
    (last more : ℕ) (es : List TimelineEntry)
    → last ≤ more
    → All (EntryBelow last) es
    → All (EntryBelow more) es
LocalBelow-more last more [] h k = tt
LocalBelow-more last more (e ∷ es) h k = (
  OriginBelow-more last more e.origin e.post.sender_sequence h k.0,
  LocalBelow-more last more es h k.1,
)

module _ (P : TimelineEntry → Type 0) where
  All-erase : (es : List TimelineEntry) (i : ℕ) → All P es → All P (erase es i)
  All-erase [] i h = tt
  All-erase (e ∷ es) zero h = h.1
  All-erase (e ∷ es) (suc i) h = (h.0, All-erase es i h.1)

  make_room-All :
      (t : Timeline) (protected : Option MessageId)
      → All P t.entries
      → All P (make_room t protected).1
  unfolding make_room
  make_room-All t protected h = elim (Bool-cases (length t.entries == t.capacity)) [
    | inr less ↦ rw less h
    | inl full ↦ elim (Option-cases (eviction_index protected t.entries)) [
      | inl nothing ↦ rw (full, nothing) h
      | inr (i, found) ↦ rw (full, found) (All-erase t.entries i h)
    ]
  ]

  -- What holds of every entry, and of the new one, holds of every entry afterwards.
  pub insert-All :
      (t : Timeline) (post : PostPayload) (origin : EntryOrigin) (protected : Option MessageId)
      → All P t.entries
      → ((order : ℕ) → P (record { post = post; received_order = order; origin = origin }))
      → All P (insert t post origin protected).1.entries
  unfolding append_entry
  insert-All t post origin protected h new = elim (outcome t post origin protected) [
    | known existing here e ↦ rw e h
    | no_queue absent is_queued full e ↦ rw e h
    | unavailable error absent a e ↦ rw e h
    | appended absent room a e ↦
        rw e (All-append P (make_room t protected).1 _ (make_room-All t protected h) (new _, tt))
  ]

step-OriginBelow :
    (last n : ℕ) (origin : EntryOrigin) (target : LocalDeliveryState)
    → OriginBelow last origin n
    → OriginBelow last (step_state origin target).1 n
unfolding step_state
step-OriginBelow last n received_origin target h = tt
step-OriginBelow last n (local_delivery state) target h =
    elim (Bool-cases (same_state state target)) [
      | inl same ↦ rw same h
      | inr other ↦ elim (Bool-cases (is_queued_state state)) [
        | inl waiting ↦ rw (other, waiting) h
        | inr over ↦ rw (other, over) h
      ]
    ]

transition_entries-Below :
    (last : ℕ) (es : List TimelineEntry) (id : MessageId) (target : LocalDeliveryState)
    → All (EntryBelow last) es
    → All (EntryBelow last) (transition_entries es id target).1
unfolding transition_entries
transition_entries-Below last [] id target h = tt
transition_entries-Below last (e ∷ es) id target h = elim (Bool-cases (has_id id e)) [
  | inl here ↦ rw here (step-OriginBelow last e.post.sender_sequence e.origin target h.0, h.1)
  | inr there ↦ rw there (h.0, transition_entries-Below last es id target h.1)
]

pub transition-LocalBelow :
    (last : ℕ) (t : Timeline) (id : MessageId) (target : LocalDeliveryState)
    → LocalBelow last t
    → LocalBelow last (transition t id target).1
unfolding transition
transition-LocalBelow last t id target h = transition_entries-Below last t.entries id target h
