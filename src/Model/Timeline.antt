-- ===== src/Model/Timeline.antt =====
-- src/model/timeline.h and timeline.cpp: the posts that are kept, oldest first. A member function that
-- changes the timeline returns it beside its result.
pub mod State
pub mod Entries
pub mod Evict
pub mod Invariant
pub mod Restore
pub mod Keeps
pub mod Transitions
pub mod Tests
use lora_messenger.Common.{
  ℕ, zero, suc, ◌+◌, ◌-◌, ◌%◌, ◌^◌, min, Bool, true, false, not, ◌&&◌, ◌||◌, Option, none, some,
  List, [], ◌∷◌, ◌++◌, length, get_elem?, ltb, leb, ◌==◌, nat_eq, Eq, if◌then◌else◌,
}
use lora_messenger.Core.Result.{Result, success, failure, ◌>>=◌, ◌>>◌, reject}
use lora_messenger.Core.Uuid.{MessageId, InstallId, message_id_eq, install_id_eq}
use lora_messenger.Model.Post.{PostPayload, contains, post_eq}
use lora_messenger.Model.Timeline.State.{
  LocalDeliveryState, EntryOrigin, TimelineEntry, TimelineInsertError, TimelineInsertResult,
  TransitionError, Timeline, is_queued_state, is_queued, has_id, queued_count, find,
  queued_capacity, broadcast, conflict, duplicate, failed, full, invalid_state, local_delivery,
  not_found, not_local, order_exhausted, queue_full, queued, received_origin, unknown,
}

-- The entries that `eviction_index` passes over.
abbrev pub is_kept : Option MessageId → TimelineEntry → Bool
is_kept none entry = is_queued entry.origin
is_kept (some protected) entry = has_id protected entry || is_queued entry.origin

unfoldable pub eviction_index : Option MessageId → List TimelineEntry → Option ℕ
eviction_index protected [] = none
eviction_index protected (entry ∷ rest) =
    if is_kept protected entry then next (eviction_index protected rest) else some 0
  where
    next : Option ℕ → Option ℕ
    next none = none
    next (some index) = some (suc index)

abbrev pub is_some {ℓ} : {A : Type ℓ} → Option A → Bool
is_some none = false
is_some (some a) = true

abbrev pub order_maximum : ℕ
order_maximum = 2 ^ 64 - 1

unfoldable pub insertion_availability : Timeline → Option MessageId → Option TimelineInsertError
unfolding eviction_index
insertion_availability t protected =
    if t.last_assigned_order == order_maximum
    then some order_exhausted
    else (if ltb (length t.entries) t.capacity || is_some (eviction_index protected t.entries)
        then none
        else some full)

-- `erase(begin() + index)`
abbrev pub erase : List TimelineEntry → ℕ → List TimelineEntry
erase [] index = []
erase (entry ∷ rest) zero = rest
erase (entry ∷ rest) (suc index) = entry ∷ erase rest index

-- Makes room for an entry: the identifier of the evicted one, and the entries that stay. `insert`
-- dereferences the index without a test; the last branch is not reached from there.
unfoldable pub make_room : Timeline → Option MessageId → Option MessageId × List TimelineEntry
unfolding eviction_index
make_room t protected =
    if length t.entries == t.capacity
    then (elim (eviction_index protected t.entries) [
      | some index ↦ (evicted_id (get_elem? t.entries index), erase t.entries index)
      | none ↦ (none, t.entries)
    ])
    else (none, t.entries)
  where
    evicted_id : Option TimelineEntry → Option MessageId
    evicted_id none = none
    evicted_id (some entry) = some entry.post.message_id

abbrev pub refused : TimelineInsertError → TimelineInsertResult
refused error = record { error = some error; evicted_message_id = none; received_order = none }

-- The tail of `insert`, once nothing refuses the post.
unfoldable pub append_entry :
    Timeline → PostPayload → EntryOrigin → Option MessageId → TimelineInsertResult × Timeline
unfolding make_room
append_entry t post origin protected =
    let next_order = (t.last_assigned_order + 1) % 2 ^ 64 in
    let candidate : TimelineEntry = record {
      post = post;
      received_order = next_order;
      origin = origin;
    } in
    let (evicted, kept) = make_room t protected in
    (
      record { error = none; evicted_message_id = evicted; received_order = some next_order },
      record {
        capacity = t.capacity;
        last_assigned_order = next_order;
        entries = kept ++ (candidate ∷ []);
      },
    )

unfoldable pub insert :
    Timeline → PostPayload → EntryOrigin → Option MessageId → TimelineInsertResult × Timeline
unfolding find queued_count queued_capacity insertion_availability append_entry
insert t post origin protected = elim (find t.entries post.message_id) [
  | some existing ↦ (refused (if existing.post == post then duplicate else conflict), t)
  | none ↦
      if is_queued origin && leb (queued_capacity t) (queued_count t.entries)
      then (refused queue_full, t)
      else (elim (insertion_availability t protected) [
        | some error ↦ (refused error, t)
        | none ↦ append_entry t post origin protected
      ])
]

unfoldable pub insert_received : Timeline → PostPayload → TimelineInsertResult × Timeline
unfolding insert
insert_received t post = insert t post received_origin none

unfoldable pub insert_local :
    Timeline → PostPayload → LocalDeliveryState → TimelineInsertResult × Timeline
unfolding insert
insert_local t post initial_state = insert t post (local_delivery initial_state) post.reply_to

abbrev pub same_state : LocalDeliveryState → LocalDeliveryState → Bool
same_state queued queued = true
same_state broadcast broadcast = true
same_state failed failed = true
same_state unknown unknown = true
same_state left right = false

-- What `transition` does to the entry found: an error, or the new state. `none` of the error and the
-- old state where nothing is to be done.
unfoldable pub step_state : EntryOrigin → LocalDeliveryState → Option TransitionError × EntryOrigin
step_state received_origin target = (some not_local, received_origin)
step_state (local_delivery state) target =
    if same_state state target
    then (none, local_delivery state)
    else (if not (is_queued_state state)
        then (some invalid_state, local_delivery state)
        else (none, local_delivery target))

abbrev pub with_origin : TimelineEntry → EntryOrigin → TimelineEntry
with_origin entry origin = record {
  post = entry.post;
  received_order = entry.received_order;
  origin = origin;
}

-- The search of `find_mutable` and the assignment through the pointer that it returns.
unfoldable pub transition_entries :
    List TimelineEntry
    → MessageId
    → LocalDeliveryState
    → Option TransitionError × List TimelineEntry
unfolding step_state
transition_entries [] message_id target = (some not_found, [])
transition_entries (entry ∷ rest) message_id target =
    let (error, origin) = step_state entry.origin target in
    let (rest_error, rest_entries) = transition_entries rest message_id target in
    if has_id message_id entry
    then (error, with_origin entry origin ∷ rest)
    else (rest_error, entry ∷ rest_entries)

unfoldable pub transition :
    Timeline → MessageId → LocalDeliveryState → Option TransitionError × Timeline
unfolding transition_entries
transition t message_id target =
    let (error, entries) = transition_entries t.entries message_id target in
    (
      error,
      record {
        capacity = t.capacity;
        last_assigned_order = t.last_assigned_order;
        entries = entries;
      },
    )

unfoldable pub mark_broadcast : Timeline → MessageId → Option TransitionError × Timeline
unfolding transition
mark_broadcast t message_id = transition t message_id broadcast

unfoldable pub mark_failed : Timeline → MessageId → Option TransitionError × Timeline
unfolding transition
mark_failed t message_id = transition t message_id failed
