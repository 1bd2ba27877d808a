-- ===== src/Model/Timeline/Invariant.antt =====
-- What holds of every timeline, and that the operations keep it.
use lora_messenger.Common.{
  ◌+◌, ◌-◌, ◌%◌, ◌^◌, ◌<◌, ◌≤◌, ◌≡◌, refl, min, true, false, ◌&&◌, Option, none, some, List, [],
  ◌∷◌, length, ◌==◌, leb, nat_eq, arith, Bool-cases, inl, inr, Option-cases, length-append,
  if◌then◌else◌,
}
use lora_messenger.Core.Uuid.{MessageId, message_id_eq}
use lora_messenger.Model.Post.{PostPayload, post_eq}
use lora_messenger.Model.Timeline.{
  refused, eviction_index, make_room, insertion_availability, append_entry, insert,
}
use lora_messenger.Model.Timeline.State.{
  duplicate, conflict, queue_full, TimelineInsertError, TimelineEntry, Timeline, EntryOrigin,
  is_queued, queued_count, queued_capacity, find, any_with_id, max_queued_local_posts,
}
use lora_messenger.Model.Timeline.Entries.{
  Rising, Distinct, Rising-append, Rising-erase, any_with_id-erase, Distinct-erase, Distinct-append,
  find-any_with_id, queued_count-append,
}
use lora_messenger.Model.Timeline.Evict.{length-erase, queued_count-erase}

pub record IsTimeline (t : Timeline) : Type 0 where
  pub capacity_pos : 0 < t.capacity
  pub capacity_le : t.capacity ≤ 256
  pub size_le : length t.entries ≤ t.capacity
  pub order_range : t.last_assigned_order < 2 ^ 64
  pub ordered : Rising 0 t.entries t.last_assigned_order
  pub distinct : Distinct t.entries
  pub queued_le : queued_count t.entries ≤ min max_queued_local_posts (t.capacity - 1)

-- The entries after `make_room`, where there is room or something to evict.
record Room (t : Timeline) (kept : List TimelineEntry) : Type 0 where
  space : length kept + 1 ≤ t.capacity
  still_ordered : Rising 0 kept t.last_assigned_order
  still_distinct : Distinct kept
  still_absent : (id : MessageId) → any_with_id t.entries id ≡ false → any_with_id kept id ≡ false
  same_queue : queued_count kept ≡ queued_count t.entries

make_room-Room :
    (t : Timeline) (protected : Option MessageId)
    → IsTimeline t
    → insertion_availability t protected ≡ none
    → Room t (make_room t protected).1
unfolding make_room insertion_availability
make_room-Room t protected v a = elim (Bool-cases (length t.entries == t.capacity)) [
  | inr less ↦ rw less (record {
    space = ground (arith, v.size_le, less);
    still_ordered = v.ordered;
    still_distinct = v.distinct;
    still_absent = λ id h. h;
    same_queue = refl;
  })
  | inl full ↦ elim (Option-cases (eviction_index protected t.entries)) [
    | inl nothing ↦ absurd (ground (arith, a, full, nothing))
    | inr (i, found) ↦
        rw (full, found)
          (record {
            space = ground (arith, length-erase protected t.entries i found, v.size_le);
            still_ordered = Rising-erase 0 t.last_assigned_order t.entries i v.ordered;
            still_distinct = Distinct-erase t.entries i v.distinct;
            still_absent = any_with_id-erase t.entries i;
            same_queue = queued_count-erase protected t.entries i found;
          })
  ]
]

pub order_left :
    (t : Timeline) (protected : Option MessageId)
    → IsTimeline t
    → insertion_availability t protected ≡ none
    → t.last_assigned_order + 1 < 2 ^ 64
unfolding insertion_availability
order_left t protected v a = ground (arith, v.order_range, a)

append_entry-IsTimeline :
    (t : Timeline) (post : PostPayload) (origin : EntryOrigin) (protected : Option MessageId)
    → IsTimeline t
    → find t.entries post.message_id ≡ none
    → (is_queued origin && leb (queued_capacity t) (queued_count t.entries)) ≡ false
    → insertion_availability t protected ≡ none
    → IsTimeline (append_entry t post origin protected).1
unfolding append_entry queued_count queued_capacity
append_entry-IsTimeline t post origin protected v absent queue a =
    let room = make_room-Room t protected v a in
    let kept = (make_room t protected).1 in
    let below = order_left t protected v a in
    let next : (t.last_assigned_order + 1) % 2 ^ 64 ≡ t.last_assigned_order + 1 =
      omega (arith, below) in
    let candidate : TimelineEntry = record {
      post = post;
      received_order = (t.last_assigned_order + 1) % 2 ^ 64;
      origin = origin;
    } in
    record {
      capacity_pos = v.capacity_pos;
      capacity_le = v.capacity_le;
      size_le = omega (arith, length-append kept (candidate ∷ []), room.space);
      order_range = omega (arith, below);
      ordered =
          Rising-append 0 t.last_assigned_order kept candidate room.still_ordered
            (omega (arith, next));
      distinct =
          Distinct-append kept candidate room.still_distinct
            (room.still_absent post.message_id (find-any_with_id t.entries post.message_id absent));
      queued_le =
          ground (arith, queued_count-append kept candidate, room.same_queue, v.queued_le, queue);
    }

-- The four ways of `insert`: the first that applies.
pub data Outcome (t : Timeline) (post : PostPayload) (origin : EntryOrigin)
    (protected : Option MessageId) : Type 0 where
  known :
      (existing : TimelineEntry)
      → find t.entries post.message_id ≡ some existing
      → insert t post origin protected
        ≡ (refused (if existing.post == post then duplicate else conflict), t)
      → Outcome t post origin protected
  no_queue :
      find t.entries post.message_id ≡ none
      → is_queued origin ≡ true
      → queued_capacity t ≤ queued_count t.entries
      → insert t post origin protected ≡ (refused queue_full, t)
      → Outcome t post origin protected
  unavailable :
      (error : TimelineInsertError)
      → find t.entries post.message_id ≡ none
      → insertion_availability t protected ≡ some error
      → insert t post origin protected ≡ (refused error, t)
      → Outcome t post origin protected
  appended :
      find t.entries post.message_id ≡ none
      → (is_queued origin && leb (queued_capacity t) (queued_count t.entries)) ≡ false
      → insertion_availability t protected ≡ none
      → insert t post origin protected ≡ append_entry t post origin protected
      → Outcome t post origin protected

pub outcome :
    (t : Timeline) (post : PostPayload) (origin : EntryOrigin) (protected : Option MessageId)
    → Outcome t post origin protected
unfolding insert
outcome t post origin protected = elim (Option-cases (find t.entries post.message_id)) [
  | inr (existing, here) ↦ known existing here (ground (arith, here))
  | inl absent ↦
      elim (Bool-cases (is_queued origin && leb (queued_capacity t) (queued_count t.entries))) [
        | inl stop ↦
            no_queue absent (ground (arith, stop)) (ground (arith, stop))
              (ground (arith, absent, stop))
        | inr room ↦ elim (Option-cases (insertion_availability t protected)) [
          | inr (error, e) ↦ unavailable error absent e (ground (arith, absent, room, e))
          | inl a ↦ appended absent room a (ground (arith, absent, room, a))
        ]
      ]
]

-- An insertion keeps the invariant, whatever comes of it.
pub insert-IsTimeline :
    (t : Timeline) (post : PostPayload) (origin : EntryOrigin) (protected : Option MessageId)
    → IsTimeline t
    → IsTimeline (insert t post origin protected).1
insert-IsTimeline t post origin protected v = elim (outcome t post origin protected) [
  | known existing here e ↦ rw e v
  | no_queue absent is_queued full e ↦ rw e v
  | unavailable error absent a e ↦ rw e v
  | appended absent room a e ↦
      rw e (append_entry-IsTimeline t post origin protected v absent room a)
]
