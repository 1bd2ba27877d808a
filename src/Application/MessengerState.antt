-- ===== src/Application/MessengerState.antt =====
-- src/application/messenger_state.h and messenger_state.cpp: the identity and the timeline, and the
-- commands that change them. The ports are parameters: the bytes that `IRandomBytes` fills and the
-- seconds that `IWallClock` tells in this call, and an `IStateCommit`, if there is one, whose store is
-- passed along. A command returns its result, the state and the store.
pub mod Results
pub mod Prepared
pub mod Local
pub mod Safe
pub mod Commands
pub mod Reports
pub mod Composes
pub mod Sequences
pub mod Tests
use lora_messenger.Common.{
  ℕ, suc, ◌-◌, ◌^◌, min, Bool, true, false, not, ◌||◌, ◌&&◌, Option, none, some, List, [], ◌∷◌,
  length, ltb, leb, ◌==◌, nat_eq, if◌then◌else◌,
}
use lora_messenger.Core.Result.{Result, success, failure, ◌>>=◌, ◌>>◌, reject}
use lora_messenger.Core.Text.{TextError, UserId, create_user_id, create_post_body}
use lora_messenger.Core.Uuid.{
  Uuid, InstallId, MessageId, IdError, install_id_eq, message_id_eq, install_id_generate,
  message_id_generate,
}
use lora_messenger.Model.Identity.{
  Identity, restore_identity, next_sender_sequence, commit_sender_sequence, rename,
}
use lora_messenger.Model.Post.{
  ℤ, PostError, PostPayload, PostPayloadInput, contains, create_post, max_mentions,
}
use lora_messenger.Model.Timeline.{
  is_some, insertion_availability, insert_local, insert_received, mark_broadcast, mark_failed,
}
use lora_messenger.Model.Timeline.State.{
  Timeline, TimelineInsertError, TimelineInsertResult, TransitionError, LocalDeliveryState,
  duplicate, conflict, full, order_exhausted, not_found, not_local, invalid_state, queued,
  queued_count, queued_capacity, find,
}
use lora_messenger.Application.MessengerState.Results.{
  CommandError, CommandResult, MessengerState, MessengerStatus, PostDraft, StateCommit,
  already_initialized, command_error, command_ok, command_order_exhausted, conflicting_post,
  duplicate_mention, duplicate_post, invalid_body, invalid_post, invalid_transition,
  invalid_user_id, map_availability, map_error, map_insert_error, map_insert_result,
  message_id_collision, message_not_found, not_initialized, not_local_post, persistence_unavailable,
  post_refused, queue_full, random_unavailable, ready, refuse_if, reply_parent_unavailable,
  required, sequence_exhausted, status, text_refused, timeline_full, too_many_mentions,
  uninitialized,
}

-- The loop over the draft's mentions: is one of them repeated behind its place?
unfoldable pub has_duplicate : List InstallId → Bool
unfolding contains
has_duplicate [] = false
has_duplicate (mention ∷ rest) = contains rest mention || has_duplicate rest

abbrev pub mention_uuids : List InstallId → List Uuid
mention_uuids [] = []
mention_uuids (mention ∷ rest) = mention.uuid ∷ mention_uuids rest

abbrev pub reply_uuid : Option MessageId → Option Uuid
reply_uuid none = none
reply_uuid (some message_id) = some message_id.uuid

-- `draft.reply_to && !timeline_.find(*draft.reply_to)`
unfoldable pub is_reply_missing : Timeline → Option MessageId → Bool
unfolding find
is_reply_missing timeline none = false
is_reply_missing timeline (some parent) = not (is_some (find timeline.entries parent))

abbrev pub post_input : Identity → PostDraft → ℕ → MessageId → Option ℤ → PostPayloadInput
post_input identity draft sender_sequence message_id now = record {
  message_id = message_id.uuid;
  sender_id = identity.install_id.uuid;
  sender_sequence = sender_sequence;
  sender_user_id = identity.user_id.value;
  body = draft.body;
  mentions = mention_uuids draft.mentions;
  reply_to = reply_uuid draft.reply_to;
  sender_time = now;
}

-- What `compose` has made when it begins to commit.
pub record Composed : Type 0 where
  pub updated_identity : Identity
  pub post : PostPayload
  pub inserted : TimelineInsertResult
  pub candidate : Timeline

-- `compose` up to the commit.
unfoldable pub prepare :
    MessengerState → PostDraft → Option (List ℕ) → Option ℤ → Result Composed CommandResult
unfolding has_duplicate is_reply_missing queued_count queued_capacity find insertion_availability
    commit_sender_sequence next_sender_sequence insert_local
prepare state draft filled now = do
  identity ← required state.identity (command_error not_initialized)
  body ← map_error (create_post_body draft.body) (text_refused invalid_body)
  reject (ltb max_mentions (length draft.mentions)) (command_error too_many_mentions)
  reject (has_duplicate draft.mentions) (command_error duplicate_mention)
  reject (is_reply_missing state.timeline draft.reply_to) (command_error reply_parent_unavailable)
  reject (leb (queued_capacity state.timeline) (queued_count state.timeline.entries))
      (command_error queue_full)
  sequence ← required (next_sender_sequence identity) (command_error sequence_exhausted)
  reject (not (commit_sender_sequence identity sequence).0) (command_error sequence_exhausted)
  refuse_if (insertion_availability state.timeline draft.reply_to) map_availability
  message_id ← map_error (message_id_generate filled) (λ _. command_error random_unavailable)
  reject (is_some (find state.timeline.entries message_id)) (command_error message_id_collision)
  post ← map_error (create_post (post_input identity draft sequence message_id now)) post_refused
  let (inserted, candidate) = insert_local state.timeline post queued
  reject (is_some inserted.error) (map_insert_result inserted)
  success (record {
    updated_identity = (commit_sender_sequence identity sequence).1;
    post = post;
    inserted = inserted;
    candidate = candidate;
  })

module _ {Store : Type 0} (commit : Option (StateCommit Store)) where
  -- `!commit_ || commit_->persist_identity(identity)`
  unfoldable pub persist_identity : Store → Identity → Bool × Store
  persist_identity store identity = elim commit [
    | none ↦ (true, store)
    | some port ↦ port.persist_identity store identity
  ]

  unfoldable pub persist_timeline : Store → Timeline → Bool × Store
  persist_timeline store timeline = elim commit [
    | none ↦ (true, store)
    | some port ↦ port.persist_timeline store timeline
  ]

  abbrev pub Outcome : Type 0
  Outcome = CommandResult × MessengerState × Store

  -- The identity is adopted if the store took it.
  abbrev pub adopt_identity : MessengerState → Identity → Bool × Store → Outcome
  adopt_identity state candidate (false, store) =
      (command_error persistence_unavailable, state, store)
  adopt_identity state candidate (true, store) =
      (command_ok, record { identity = some candidate; timeline = state.timeline }, store)

  -- The timeline is adopted, and the command answers `result`, if the store took it.
  abbrev pub adopt_timeline : CommandResult → MessengerState → Timeline → Bool × Store → Outcome
  adopt_timeline result state candidate (false, store) =
      (command_error persistence_unavailable, state, store)
  adopt_timeline result state candidate (true, store) =
      (result, record { identity = state.identity; timeline = candidate }, store)

  -- A command that was refused, or that goes on with what its checks found.
  abbrev pub finish_command {ℓ} :
      {A : Type ℓ} → MessengerState → Store → Result A CommandResult → (A → Outcome) → Outcome
  finish_command state store (failure refused) next = (refused, state, store)
  finish_command state store (success found) next = next found

  abbrev pub new_identity :
      MessengerState → List ℕ → Option (List ℕ) → Result Identity CommandResult
  new_identity state user_id filled = do
    reject (is_some state.identity) (command_error already_initialized)
    validated ← map_error (create_user_id user_id) (text_refused invalid_user_id)
    install_id ← map_error (install_id_generate filled) (λ _. command_error random_unavailable)
    success (restore_identity install_id validated 0)

  unfoldable pub initialize_new : MessengerState → Store → List ℕ → Option (List ℕ) → Outcome
  unfolding persist_identity
  initialize_new state store user_id filled =
      finish_command state store (new_identity state user_id filled)
        (λ candidate. adopt_identity state candidate (persist_identity store candidate))

  abbrev pub renamed : MessengerState → List ℕ → Result Identity CommandResult
  renamed state user_id = do
    identity ← required state.identity (command_error not_initialized)
    validated ← map_error (create_user_id user_id) (text_refused invalid_user_id)
    success (rename identity validated)

  unfoldable pub rename_user : MessengerState → Store → List ℕ → Outcome
  unfolding persist_identity
  rename_user state store user_id =
      finish_command state store (renamed state user_id)
        (λ candidate. adopt_identity state candidate (persist_identity store candidate))

  -- The result of a post that was composed.
  abbrev pub composed_result : Composed → CommandResult
  composed_result composed = record (map_insert_result composed.inserted) {
    message_id = some composed.post.message_id;
  }

  -- The commit of `compose`: first the identity, which stays adopted when the timeline is refused.
  unfoldable pub commit_composed : MessengerState → Composed → Bool × Store → Outcome
  unfolding persist_timeline
  commit_composed state composed (false, store) =
      (command_error persistence_unavailable, state, store)
  commit_composed state composed (true, store) =
      adopt_timeline (composed_result composed)
        (record { identity = some composed.updated_identity; timeline = state.timeline })
        composed.candidate (persist_timeline store composed.candidate)

  unfoldable pub compose : MessengerState → Store → PostDraft → Option (List ℕ) → Option ℤ → Outcome
  unfolding prepare persist_identity commit_composed
  compose state store draft filled now =
      finish_command state store (prepare state draft filled now) (λ composed.
        commit_composed state composed (persist_identity store composed.updated_identity))

  abbrev pub received :
      MessengerState → PostPayload → Result (TimelineInsertResult × Timeline) CommandResult
  received state post = do
    identity ← required state.identity (command_error not_initialized)
    let (inserted, candidate) = insert_received state.timeline post
    reject (is_some inserted.error) (map_insert_result inserted)
    success (inserted, candidate)

  unfoldable pub accept_received : MessengerState → Store → PostPayload → Outcome
  unfolding insert_received persist_timeline
  accept_received state store post = finish_command state store (received state post) (λ found.
      adopt_timeline (map_insert_result found.0) state found.1 (persist_timeline store found.1))

  abbrev pub transition_error : TransitionError → CommandResult
  transition_error not_found = command_error message_not_found
  transition_error not_local = command_error not_local_post
  transition_error invalid_state = command_error invalid_transition

  abbrev pub moved :
      MessengerState → Option TransitionError × Timeline → Result Timeline CommandResult
  moved state (error, candidate) = do
    identity ← required state.identity (command_error not_initialized)
    refuse_if error transition_error
    success candidate

  unfoldable pub transition : MessengerState → Store → MessageId → Bool → Outcome
  unfolding mark_broadcast mark_failed persist_timeline
  transition state store message_id is_broadcast =
      finish_command state store
        (moved state (
          if is_broadcast
          then mark_broadcast state.timeline message_id
          else mark_failed state.timeline message_id))
        (λ candidate. adopt_timeline command_ok state candidate (persist_timeline store candidate))

pub restore_identity_state : MessengerState → Identity → CommandResult × MessengerState
restore_identity_state state identity =
    if is_some state.identity
    then (command_error already_initialized, state)
    else (command_ok, record { identity = some identity; timeline = state.timeline })

pub restore_state : MessengerState → Identity → Timeline → CommandResult × MessengerState
restore_state state identity timeline =
    if is_some state.identity
    then (command_error already_initialized, state)
    else (command_ok, record { identity = some identity; timeline = timeline })
