-- ===== src/Application/MessengerState/Tests.antt =====
-- A device that answers a post, on which `messenger_state.cpp` is run.
use lora_messenger.Common.{ℕ, ◌+◌, ◌≡◌, refl, true, inr, Option, none, some, [], ◌∷◌, arith}
use lora_messenger.Common.Tests.{list_beq}
use lora_messenger.Core.Result.{success}
use lora_messenger.Core.Uuid.{message_id_generate, generate_v4, is_v4}
use lora_messenger.Core.Uuid.Tests.{first_id, second_id}
use lora_messenger.Core.Text.Tests.{yuta}
use lora_messenger.Model.Identity.{Identity, next_sender_sequence, commit_sender_sequence}
use lora_messenger.Model.Post.{ℤ, negsuc, contains}
use lora_messenger.Model.Post.Tests.{sample, sample-IsPost}
use lora_messenger.Model.Post.Valid.{create_post_again}
use lora_messenger.Core.Text.Users.{create_post_body_again}
use lora_messenger.Model.Timeline.{insert_local, insertion_availability, append_entry}
use lora_messenger.Model.Timeline.State.{
  Timeline, TimelineEntry, received_origin, local_delivery, queued, find, queued_count,
  queued_capacity, any_with_id,
}
use lora_messenger.Application.MessengerState.{
  prepare, has_duplicate, is_reply_missing, compose, commit_composed, persist_identity,
  persist_timeline, Composed,
}
use lora_messenger.Model.Timeline.Invariant.{IsTimeline}
use lora_messenger.Application.MessengerState.Prepared.{IsPrepared}
use lora_messenger.Application.MessengerState.Local.{LocalBelow}
use lora_messenger.Application.MessengerState.Safe.{IsCommit, IsSafe}
use lora_messenger.Application.MessengerState.Sequences.{Run-fresh_number, stay}
use lora_messenger.Application.MessengerState.Composes.{
  Composing, compose-Composing, compose-posted,
}
use lora_messenger.Application.MessengerState.Results.{MessengerState, PostDraft, StateCommit}

abbrev me : Identity
me = record {
  install_id = record { uuid = second_id };
  user_id = record { value = yuta };
  last_issued_sender_sequence = 6;
}

abbrev parent : TimelineEntry
parent = record {
  post = record sample { message_id = record { uuid = second_id } };
  received_order = 1;
  origin = received_origin;
}

abbrev timeline : Timeline
timeline = record { capacity = 4; last_assigned_order = 1; entries = parent ∷ [] }

abbrev state : MessengerState
state = record { identity = some me; timeline = timeline }

abbrev draft : PostDraft
draft = record {
  body = yuta;
  mentions = record { uuid = first_id } ∷ [];
  reply_to = some (record { uuid = second_id });
}

abbrev composed : Composed
composed = record {
  updated_identity = record me { last_issued_sender_sequence = 7 };
  post = sample;
  inserted = record { error = none; evicted_message_id = none; received_order = some 2 };
  candidate = record {
    capacity = 4;
    last_assigned_order = 2;
    entries =
        parent ∷ record { post = sample; received_order = 2; origin = local_delivery queued } ∷ [];
  };
}

generated : message_id_generate (some first_id.bytes) ≡ success (record { uuid = first_id })
unfolding message_id_generate generate_v4 is_v4
generated = refl

abbrev clock : Option ℤ
clock = some (negsuc 4)

prepared : prepare state draft (some first_id.bytes) clock ≡ success composed
unfolding prepare has_duplicate is_reply_missing find next_sender_sequence commit_sender_sequence
    insertion_availability insert_local queued_count queued_capacity contains append_entry list_beq
prepared =
    rw (create_post_body_again sample.body sample-IsPost.text)
      (rw generated (rw (create_post_again sample sample-IsPost) refl))

-- A store of two cells that takes everything.
abbrev Cells : Type 0
Cells = Option Identity × Option Timeline

abbrev port : StateCommit Cells
port = record {
  persist_identity = λ s i. (true, (some i, s.1));
  persist_timeline = λ s t. (true, (s.0, some t));
}

port-IsCommit : IsCommit port (λ s. s.0) (λ s. s.1)
port-IsCommit = record {
  identity_taken = λ s i e. refl;
  identity_refused = λ s i e. inr refl;
  identity_only = λ s i. refl;
  timeline_written = λ s t. inr refl;
  timeline_only = λ s t. refl;
}

abbrev cells : Cells
cells = (some me, none)

state-IsSafe : IsSafe port (λ s. s.0) (λ s. s.1) state cells me
state-IsSafe = record {
  known = refl;
  kept = me;
  stored = refl;
  same_install = refl;
  ahead = omega arith;
  memory_below = (tt, tt);
  stored_below = λ t h. absurd (cc h);
}

Run-fresh_number_example :
    (highest : ℕ) × (7 ≡ highest + 1)
    × LocalBelow highest state.timeline
    × ((t : Timeline) → ◌≡◌ {A = Option Timeline} none (some t) → LocalBelow highest t)
Run-fresh_number_example =
    Run-fresh_number port (λ s. s.0) (λ s. s.1) port-IsCommit me draft (some first_id.bytes) clock
      composed state-IsSafe (stay state cells) prepared

timeline-IsTimeline : IsTimeline timeline
unfolding queued_count any_with_id
timeline-IsTimeline = record {
  capacity_pos = omega arith;
  capacity_le = omega arith;
  size_le = omega arith;
  order_range = omega arith;
  ordered = (omega arith, omega arith);
  distinct = (refl, tt);
  queued_le = omega arith;
}

succeeds : (compose (some port) state cells draft (some first_id.bytes) clock).0.error ≡ none
unfolding compose commit_composed persist_identity persist_timeline
succeeds = rw prepared refl

compose-posted_example :
    (c : Composed) × IsPrepared state draft clock c
    × ((compose (some port) state cells draft (some first_id.bytes) clock).0.message_id
        ≡ some c.post.message_id)
    × (find
          (compose (some port) state cells draft (some first_id.bytes) clock).1.timeline.entries
          c.post.message_id
        ≡ some (record { post = c.post; received_order = 2; origin = local_delivery queued }))
compose-posted_example =
    compose-posted (some port) state cells draft (some first_id.bytes) clock timeline-IsTimeline
      succeeds

compose-Composing_example :
    Composing
      (some port)
      state
      draft
      clock
      (compose (some port) state cells draft (some first_id.bytes) clock)
compose-Composing_example =
    compose-Composing (some port) state cells draft (some first_id.bytes) clock
