-- ===== src/Model/Timeline/Transitions.antt =====
-- `transition` keeps the invariant.
use lora_messenger.Common.{
  ℕ, ◌≤◌, ◌≡◌, ◌≢◌, ◌↔◌, refl, ap, ap₂, ◌∙◌, Bool, true, false, ◌||◌, Option, none, some, List, [],
  ◌∷◌, length, arith, Bool-cases, inl, inr, Option-cases, subst,
}
use lora_messenger.Core.Uuid.{MessageId, message_id_eq}
use lora_messenger.Model.Timeline.{
  same_state, with_origin, step_state, transition_entries, transition,
}
use lora_messenger.Model.Timeline.State.{
  TimelineEntry, Timeline, EntryOrigin, received_origin, local_delivery, LocalDeliveryState, queued,
  broadcast, failed, unknown, TransitionError, not_found, not_local, invalid_state, is_queued,
  is_queued_state, has_id, find, queued_count, any_with_id,
}
use lora_messenger.Model.Timeline.Entries.{Rising, Distinct}
use lora_messenger.Model.Timeline.Invariant.{IsTimeline}

step_state-queued :
    (origin : EntryOrigin) (target : LocalDeliveryState)
    → is_queued_state target ≡ false
    → is_queued (step_state origin target).1 ≡ true
    → is_queued origin ≡ true
unfolding step_state
step_state-queued received_origin target h k = k
step_state-queued (local_delivery queued) target h k = refl
step_state-queued (local_delivery broadcast) queued h k = absurd (cc h)
step_state-queued (local_delivery broadcast) broadcast h k = absurd (cc k)
step_state-queued (local_delivery broadcast) failed h k = absurd (cc k)
step_state-queued (local_delivery broadcast) unknown h k = absurd (cc k)
step_state-queued (local_delivery failed) queued h k = absurd (cc h)
step_state-queued (local_delivery failed) broadcast h k = absurd (cc k)
step_state-queued (local_delivery failed) failed h k = absurd (cc k)
step_state-queued (local_delivery failed) unknown h k = absurd (cc k)
step_state-queued (local_delivery unknown) queued h k = absurd (cc h)
step_state-queued (local_delivery unknown) broadcast h k = absurd (cc k)
step_state-queued (local_delivery unknown) failed h k = absurd (cc k)
step_state-queued (local_delivery unknown) unknown h k = absurd (cc k)

module _ (id : MessageId) (target : LocalDeliveryState) where
  abbrev after : List TimelineEntry → List TimelineEntry
  after es = (transition_entries es id target).1

  after_here :
      (e : TimelineEntry) (es : List TimelineEntry)
      → has_id id e ≡ true
      → after (e ∷ es) ≡ with_origin e (step_state e.origin target).1 ∷ es
  unfolding transition_entries
  after_here e es here = ground (arith, here)

  after_later :
      (e : TimelineEntry) (es : List TimelineEntry)
      → has_id id e ≡ false
      → after (e ∷ es) ≡ e ∷ after es
  unfolding transition_entries
  after_later e es later = ground (arith, later)

  after-Rising :
      (low high : ℕ) (es : List TimelineEntry) → Rising low es high → Rising low (after es) high
  unfolding transition_entries
  after-Rising low high [] h = h
  after-Rising low high (e ∷ es) h = elim (Bool-cases (has_id id e)) [
    | inl here ↦ rw (after_here e es here) h
    | inr later ↦ rw (after_later e es later) (h.0, after-Rising e.received_order high es h.1)
  ]

  length-after : (es : List TimelineEntry) → length (after es) ≡ length es
  unfolding transition_entries
  length-after [] = refl
  length-after (e ∷ es) = ground (arith, length-after es)

  any_with_id-after :
      (es : List TimelineEntry) (other : MessageId)
      → any_with_id (after es) other ≡ any_with_id es other
  unfolding any_with_id transition_entries
  any_with_id-after [] other = refl
  any_with_id-after (e ∷ es) other = elim (Bool-cases (has_id id e)) [
    | inl here ↦ rw (after_here e es here) refl
    | inr later ↦
        rw (after_later e es later)
          (ap (λ (b : Bool). has_id other e || b) (any_with_id-after es other))
  ]

  after-Distinct : (es : List TimelineEntry) → Distinct es → Distinct (after es)
  unfolding transition_entries
  after-Distinct [] h = tt
  after-Distinct (e ∷ es) h = elim (Bool-cases (has_id id e)) [
    | inl here ↦ rw (after_here e es here) h
    | inr later ↦
        rw (after_later e es later)
          (any_with_id-after es e.post.message_id ∙ h.0, after-Distinct es h.1)
  ]

  queued_count-after :
      is_queued_state target ≡ false
      → (es : List TimelineEntry) → queued_count (after es) ≤ queued_count es
  unfolding transition_entries queued_count
  queued_count-after h [] = omega arith
  queued_count-after h (e ∷ es) =
      ground (arith, queued_count-after h es, step_state-queued e.origin target h)

-- Moving a post to any state but queued keeps the invariant.
pub transition-IsTimeline :
    (t : Timeline) (id : MessageId) (target : LocalDeliveryState)
    → is_queued_state target ≡ false
    → IsTimeline t
    → IsTimeline (transition t id target).1
unfolding transition
transition-IsTimeline t id target h v = record {
  capacity_pos = v.capacity_pos;
  capacity_le = v.capacity_le;
  size_le = omega (arith, length-after id target t.entries, v.size_le);
  order_range = v.order_range;
  ordered = after-Rising id target 0 t.last_assigned_order t.entries v.ordered;
  distinct = after-Distinct id target t.entries v.distinct;
  queued_le = omega (arith, queued_count-after id target h t.entries, v.queued_le);
}

find-after :
    (id : MessageId) (target : LocalDeliveryState) (es : List TimelineEntry) (e : TimelineEntry)
    → find es id ≡ some e
    → ((transition_entries es id target).0 ≡ (step_state e.origin target).0)
      × (find (after id target es) id ≡ some (with_origin e (step_state e.origin target).1))
unfolding transition_entries find
find-after id target [] e h = absurd (cc h)
find-after id target (x ∷ es) e h = elim (Bool-cases (has_id id x)) [
  | inl here ↦ let it : x ≡ e = ground (arith, h, here) in rw (← it) (ground (arith, here))
  | inr later ↦ ground (arith, later, h, find-after id target es e)
]

not_found-after :
    (id : MessageId) (target : LocalDeliveryState) (es : List TimelineEntry)
    → find es id ≡ none
    → transition_entries es id target ≡ (some not_found, es)
unfolding transition_entries find
not_found-after id target [] h = refl
not_found-after id target (x ∷ es) h =
    let later : has_id id x ≡ false = ground (arith, h) in
    let rest = not_found-after id target es (ground (arith, h, later)) in
    rw later (ap (λ (r : Option TransitionError × List TimelineEntry). (r.0, x ∷ r.1)) rest)

-- A step that leaves the origin leaves the list.
same-after :
    (id : MessageId) (target : LocalDeliveryState) (es : List TimelineEntry) (e : TimelineEntry)
    → find es id ≡ some e
    → (step_state e.origin target).1 ≡ e.origin
    → after id target es ≡ es
unfolding find transition_entries
same-after id target [] e h k = absurd (cc h)
same-after id target (x ∷ es) e h k = elim (Bool-cases (has_id id x)) [
  | inl here ↦
      let it : e ≡ x = ground (arith, h, here) in
      after_here id target x es here
      ∙ ap (λ (o : EntryOrigin). with_origin x o ∷ es)
          (subst (λ (y : TimelineEntry). (step_state y.origin target).1 ≡ y.origin) it k)
  | inr later ↦
      after_later id target x es later
      ∙ ap (◌∷◌ x) (same-after id target es e (ground (arith, h, later)) k)
]

-- What `transition` answers, by the entry found: no entry, a received one, one in the state asked for,
-- one in another final state, or a queued one, which alone changes state.
pub data Moves (t : Timeline) (id : MessageId) (target : LocalDeliveryState) : Type 0 where
  missing :
      find t.entries id ≡ none → transition t id target ≡ (some not_found, t) → Moves t id target
  foreign :
      (e : TimelineEntry)
      → find t.entries id ≡ some e
      → e.origin ≡ received_origin
      → transition t id target ≡ (some not_local, t)
      → Moves t id target
  done :
      (e : TimelineEntry)
      → find t.entries id ≡ some e
      → e.origin ≡ local_delivery target
      → transition t id target ≡ (none, t)
      → Moves t id target
  final :
      (e : TimelineEntry) (state : LocalDeliveryState)
      → find t.entries id ≡ some e
      → e.origin ≡ local_delivery state
      → is_queued_state state ≡ false
      → state ≢ target
      → transition t id target ≡ (some invalid_state, t)
      → Moves t id target
  moved :
      (e : TimelineEntry)
      → find t.entries id ≡ some e
      → e.origin ≡ local_delivery queued
      → (transition t id target).0 ≡ none
      → find (transition t id target).1.entries id ≡ some (with_origin e (local_delivery target))
      → Moves t id target

abbrev with_entries :
    Timeline → Option TransitionError × List TimelineEntry → Option TransitionError × Timeline
with_entries t r = (
  r.0,
  record { capacity = t.capacity; last_assigned_order = t.last_assigned_order; entries = r.1 },
)

same_state_iff : (a b : LocalDeliveryState) → (same_state a b ≡ true) ↔ (a ≡ b)
same_state_iff queued queued = ground arith
same_state_iff queued broadcast = ground arith
same_state_iff queued failed = ground arith
same_state_iff queued unknown = ground arith
same_state_iff broadcast queued = ground arith
same_state_iff broadcast broadcast = ground arith
same_state_iff broadcast failed = ground arith
same_state_iff broadcast unknown = ground arith
same_state_iff failed queued = ground arith
same_state_iff failed broadcast = ground arith
same_state_iff failed failed = ground arith
same_state_iff failed unknown = ground arith
same_state_iff unknown queued = ground arith
same_state_iff unknown broadcast = ground arith
same_state_iff unknown failed = ground arith
same_state_iff unknown unknown = ground arith

is_queued_state-queued :
    (state : LocalDeliveryState) → is_queued_state state ≡ true → state ≡ queued
is_queued_state-queued queued h = refl
is_queued_state-queued broadcast h = absurd (cc h)
is_queued_state-queued failed h = absurd (cc h)
is_queued_state-queued unknown h = absurd (cc h)

module _ (t : Timeline) (id : MessageId) (target : LocalDeliveryState) where
  unchanged :
      (e : TimelineEntry) (error : Option TransitionError)
      → find t.entries id ≡ some e
      → (step_state e.origin target).0 ≡ error
      → (step_state e.origin target).1 ≡ e.origin
      → transition t id target ≡ (error, t)
  unfolding transition
  unchanged e error here h k =
      ap₂ (λ (x : Option TransitionError) (es : List TimelineEntry). with_entries t (x, es))
        ((find-after id target t.entries e here).0 ∙ h) (same-after id target t.entries e here k)

  Moves-from :
      (e : TimelineEntry) (origin : EntryOrigin)
      → find t.entries id ≡ some e
      → e.origin ≡ origin
      → Moves t id target
  unfolding step_state transition
  Moves-from e received_origin here o =
      foreign e here o (unchanged e _ here (rw o refl) (rw o refl))
  Moves-from e (local_delivery state) here o = elim (Bool-cases (same_state state target)) [
    | inl same ↦
        let it : state ≡ target = ground (arith, same_state_iff state target, same) in
        done e here (rw (o, it) refl) (unchanged e _ here (rw (o, same) refl) (rw (o, same) refl))
    | inr other ↦ elim (Bool-cases (is_queued_state state)) [
      | inr stuck ↦
          final e state here o stuck (λ p. cc ((same_state_iff state target).1 p, other))
            (unchanged e _ here (rw (o, other, stuck) refl) (rw (o, other, stuck) refl))
      | inl waits ↦
          let it : state ≡ queued = is_queued_state-queued state waits in
          let (answer, found) = find-after id target t.entries e here in
          moved e here (rw (o, it) refl) (answer ∙ rw (o, other, waits) refl)
            (found ∙ rw (o, other, waits) refl)
    ]
  ]

-- Of an identifier that is not there, a received post, a post in the state asked for, or one in another
-- final state, `transition` answers with its error or none and leaves the timeline as it is; a queued
-- post is found in the state asked for afterwards.
pub transition-Moves :
    (t : Timeline) (id : MessageId) (target : LocalDeliveryState) → Moves t id target
unfolding transition
transition-Moves t id target = elim (Option-cases (find t.entries id)) [
  | inl nothing ↦
      missing nothing (ap (with_entries t) (not_found-after id target t.entries nothing))
  | inr (e, here) ↦ Moves-from t id target e e.origin here refl
]
