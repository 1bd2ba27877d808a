-- ===== src/Application/MessengerState/Results.antt =====
-- The results of the commands of src/application/messenger_state.cpp, and what they are built with.
use lora_messenger.Common.{ℕ, Bool, Option, none, some, List, nat_eq, if◌then◌else◌}
use lora_messenger.Core.Result.{Result, success, failure}
use lora_messenger.Core.Text.{TextError}
use lora_messenger.Core.Uuid.{InstallId, MessageId, install_id_eq, message_id_eq}
use lora_messenger.Model.Identity.{Identity}
use lora_messenger.Model.Post.{PostError}
use lora_messenger.Model.Timeline.{is_some}
use lora_messenger.Model.Timeline.State.{
  Timeline, TimelineInsertError, TimelineInsertResult, duplicate, conflict, full, order_exhausted,
}

pub data MessengerStatus : Type 0 where
  uninitialized ready : MessengerStatus

-- `None` of the source's enumeration is `none` of an `Option`.
pub data CommandError : Type 0 where
  not_initialized already_initialized invalid_user_id invalid_body too_many_mentions : CommandError
  duplicate_mention reply_parent_unavailable queue_full timeline_full sequence_exhausted :
      CommandError
  command_order_exhausted random_unavailable message_id_collision invalid_post duplicate_post :
      CommandError
  conflicting_post message_not_found not_local_post invalid_transition persistence_unavailable :
      CommandError

pub record CommandResult : Type 0 where
  pub error : Option CommandError
  pub text_error : Option TextError
  pub post_error : Option PostError
  pub message_id : Option MessageId
  pub evicted_message_id : Option MessageId

-- `PostDraft` of src/model/post.h.
pub record PostDraft : Type 0 where
  pub body : List ℕ
  pub mentions : List InstallId
  pub reply_to : Option MessageId

-- `IStateCommit` of src/ports/state_commit.h: its answers, and the store afterwards.
pub record StateCommit (Store : Type 0) : Type 0 where
  pub persist_identity : Store → Identity → Bool × Store
  pub persist_timeline : Store → Timeline → Bool × Store

pub record MessengerState : Type 0 where
  pub identity : Option Identity
  pub timeline : Timeline

abbrev pub command_ok : CommandResult
command_ok = record {
  error = none;
  text_error = none;
  post_error = none;
  message_id = none;
  evicted_message_id = none;
}

abbrev pub command_error : CommandError → CommandResult
command_error error = record {
  error = some error;
  text_error = none;
  post_error = none;
  message_id = none;
  evicted_message_id = none;
}

abbrev pub text_refused : CommandError → TextError → CommandResult
text_refused error text_error = record {
  error = some error;
  text_error = some text_error;
  post_error = none;
  message_id = none;
  evicted_message_id = none;
}

abbrev pub post_refused : PostError → CommandResult
post_refused post_error = record {
  error = some invalid_post;
  text_error = none;
  post_error = some post_error;
  message_id = none;
  evicted_message_id = none;
}

abbrev pub map_insert_error : Option TimelineInsertError → Option CommandError
map_insert_error none = none
map_insert_error (some duplicate) = some duplicate_post
map_insert_error (some conflict) = some conflicting_post
map_insert_error (some TimelineInsertError.queue_full) = some queue_full
map_insert_error (some full) = some timeline_full
map_insert_error (some order_exhausted) = some command_order_exhausted

abbrev pub map_insert_result : TimelineInsertResult → CommandResult
map_insert_result result = record {
  error = map_insert_error result.error;
  text_error = none;
  post_error = none;
  message_id = none;
  evicted_message_id = result.evicted_message_id;
}

abbrev pub map_availability : TimelineInsertError → CommandResult
map_availability full = command_error timeline_full
map_availability order_exhausted = command_error command_order_exhausted
map_availability duplicate = command_ok
map_availability conflict = command_ok
map_availability TimelineInsertError.queue_full = command_ok

abbrev pub status : MessengerState → MessengerStatus
status state = if is_some state.identity then ready else uninitialized

-- `if (!value) return { error };`
abbrev pub required {ℓ κ} : {A : Type ℓ} {E : Type κ} → Option A → E → Result A E
required none e = failure e
required (some a) e = success a

-- `if (!result) return { error of the result };`
abbrev pub map_error {ℓ κ ι} :
    {A : Type ℓ} {E : Type κ} {F : Type ι} → Result A E → (E → F) → Result A F
map_error (success a) f = success a
map_error (failure e) f = failure (f e)

-- `if (const auto error = …; error != None) return …;`
abbrev pub refuse_if {κ ι} : {E : Type κ} {F : Type ι} → Option E → (E → F) → Result (Unit {0}) F
refuse_if none f = success tt
refuse_if (some e) f = failure (f e)
