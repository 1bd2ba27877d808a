-- ===== src/Model/Timeline/Tests.antt =====
-- Timelines on which `timeline.cpp` is run.
use lora_messenger.Common.{◌≡◌, ◌↔◌, refl, true, none, some, [], ◌∷◌, arith}
use lora_messenger.Common.Tests.{list_beq}
use lora_messenger.Core.Result.{success}
use lora_messenger.Model.Post.Tests.{sample}
use lora_messenger.Model.Post.{PostPayload}
use lora_messenger.Model.Timeline.{
  insert, insert_received, transition, append_entry, insertion_availability, is_kept,
}
use lora_messenger.Model.Timeline.State.{
  TimelineEntry, Timeline, received_origin, local_delivery, queued, broadcast, failed, restore,
  find, queued_count, any_with_id, queued_capacity,
}
use lora_messenger.Model.Timeline.Invariant.{IsTimeline, insert-IsTimeline}
use lora_messenger.Model.Timeline.Restore.{restore_iff}
use lora_messenger.Model.Timeline.Transitions.{Moves, transition-Moves, transition-IsTimeline}
use lora_messenger.Model.Timeline.Keeps.{insert-keeps, insert-finds, insert_received_new}

-- The post that `sample` replies to, by another identifier.
abbrev parent : PostPayload
parent = record {
  message_id = record { uuid = sample.sender_id.uuid };
  sender_id = sample.sender_id;
  sender_sequence = 1;
  sender_user_id = sample.sender_user_id;
  body = sample.body;
  mentions = [];
  reply_to = none;
  sender_time = none;
}

abbrev waiting : TimelineEntry
waiting = record { post = parent; received_order = 5; origin = local_delivery queued }

-- Full: its only entry but one is queued.
abbrev tiny : Timeline
tiny = record { capacity = 2; last_assigned_order = 8; entries = waiting ∷ [] }

tiny-IsTimeline : IsTimeline tiny
unfolding queued_count any_with_id
tiny-IsTimeline = record {
  capacity_pos = ground arith;
  capacity_le = ground arith;
  size_le = ground arith;
  order_range = ground arith;
  ordered = (ground arith, ground arith);
  distinct = (refl, tt);
  queued_le = ground arith;
}

tiny_parent : find tiny.entries parent.message_id ≡ some waiting
unfolding find list_beq
tiny_parent = refl

tiny_sample : find tiny.entries sample.message_id ≡ none
unfolding find list_beq
tiny_sample = refl

accepted : (insert tiny sample received_origin (some parent.message_id)).0.error ≡ none
unfolding insert find list_beq queued_count queued_capacity insertion_availability append_entry
accepted = refl

restore_iff_example : (restore 2 8 tiny.entries ≡ success tiny) ↔ IsTimeline tiny
restore_iff_example = restore_iff tiny (ground arith)

insert-IsTimeline_example :
    IsTimeline (insert tiny sample (local_delivery queued) (some parent.message_id)).1
insert-IsTimeline_example =
    insert-IsTimeline tiny sample (local_delivery queued) (some parent.message_id) tiny-IsTimeline

waiting_kept : is_kept (some parent.message_id) waiting ≡ true
unfolding list_beq
waiting_kept = refl

insert-keeps_example :
    find (insert tiny sample received_origin (some parent.message_id)).1.entries parent.message_id
    ≡ some waiting
insert-keeps_example =
    insert-keeps tiny sample received_origin (some parent.message_id) parent.message_id waiting
      tiny-IsTimeline tiny_parent waiting_kept

insert-finds_example :
    find (insert tiny sample received_origin (some parent.message_id)).1.entries sample.message_id
    ≡ some (record { post = sample; received_order = 9; origin = received_origin })
insert-finds_example =
    insert-finds tiny sample received_origin (some parent.message_id) tiny-IsTimeline accepted

insert_received_new_example : (insert_received tiny sample).0.error ≡ none
insert_received_new_example =
    insert_received_new tiny sample tiny-IsTimeline (ground arith) tiny_sample

transition-Moves_example : Moves tiny parent.message_id broadcast
transition-Moves_example = transition-Moves tiny parent.message_id broadcast

transition-IsTimeline_example : IsTimeline (transition tiny parent.message_id failed).1
transition-IsTimeline_example =
    transition-IsTimeline tiny parent.message_id failed refl tiny-IsTimeline
