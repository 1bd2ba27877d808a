-- ===== src/Application/MessengerState/Composes.antt =====
-- What `compose` answers and leaves behind.
use lora_messenger.Common.{
  ℕ, ◌+◌, ◌≡◌, ◌≢◌, refl, sym, ap, ◌∙◌, subst, Bool, true, false, Option, none, some, List, nat_eq,
}
use lora_messenger.Core.Result.{Result, success, failure}
use lora_messenger.Model.Identity.{Identity, restore_identity}
use lora_messenger.Model.Post.{ℤ}
use lora_messenger.Model.Timeline.{insert_local}
use lora_messenger.Model.Timeline.State.{Timeline, TimelineInsertResult, queued, find}
use lora_messenger.Application.MessengerState.{Composed, prepare}
use lora_messenger.Application.MessengerState.Results.{
  MessengerState, PostDraft, CommandResult, command_error,
}
use lora_messenger.Model.Timeline.State.{local_delivery}
use lora_messenger.Model.Timeline.Invariant.{IsTimeline}
use lora_messenger.Model.Timeline.Keeps.{insert-finds}
use lora_messenger.Application.MessengerState.{
  Outcome, adopt_timeline, compose, commit_composed, finish_command, persist_identity,
  persist_timeline, composed_result,
}
use lora_messenger.Application.MessengerState.Results.{StateCommit, persistence_unavailable}
use lora_messenger.Application.MessengerState.Prepared.{IsPrepared, prepare-IsPrepared}
use lora_messenger.Application.MessengerState.Reports.{command_error-IsError, prepare-Reports}

-- What `compose` leaves behind: nothing; or a number that is not used again; or the post.
pub data Composing {Store : Type 0} (commit : Option (StateCommit Store)) (state : MessengerState)
    (draft : PostDraft) (now : Option ℤ) : Outcome commit → Type 0 where
  refuses :
      (r : CommandResult) (after : Store)
      → r.error ≢ none
      → Composing commit state draft now (r, state, after)
  skips_number :
      (identity : Identity) (after : Store)
      → state.identity ≡ some identity
      → Composing commit state draft now (
        command_error persistence_unavailable,
        record {
          identity = some (
              restore_identity identity.install_id identity.user_id
                (identity.last_issued_sender_sequence + 1));
          timeline = state.timeline;
        },
        after,
      )
  posts :
      (c : Composed) (after : Store)
      → IsPrepared state draft now c
      → Composing commit state draft now (
        composed_result commit c,
        record { identity = some c.updated_identity; timeline = c.candidate },
        after,
      )

module _ {Store : Type 0} (commit : Option (StateCommit Store)) where
  commit_composed-Composing :
      (state : MessengerState) (draft : PostDraft) (now : Option ℤ) (c : Composed)
      (answer : Bool × Store)
      → IsPrepared state draft now c
      → Composing commit state draft now (commit_composed commit state c answer)
  unfolding commit_composed persist_timeline
  commit_composed-Composing state draft now c (false, store) w =
      refuses _ store (command_error-IsError _)
  commit_composed-Composing state draft now c (true, store) w =
      stored (persist_timeline commit store c.candidate)
    where
      stored :
          (answer : Bool × Store)
          → Composing commit state draft now (
              adopt_timeline commit
                (composed_result commit c)
                (record { identity = some c.updated_identity; timeline = state.timeline })
                c.candidate
                answer)
      stored (false, after) = rw w.updated (skips_number w.identity after w.known)
      stored (true, after) = posts c after w

  -- However the ports answer, `compose` does one of three things. It reports an error and leaves the
  -- state as it was; or the timeline could not be stored, and only the next sequence number is used
  -- up; or it succeeds with the prepared post, which takes that number, in the new timeline.
  pub compose-Composing :
      (state : MessengerState) (store : Store) (draft : PostDraft) (filled : Option (List ℕ))
      (now : Option ℤ)
      → Composing commit state draft now (compose commit state store draft filled now)
  unfolding compose
  compose-Composing state store draft filled now = outcome (prepare state draft filled now) refl
    where
      outcome :
          (r : Result Composed CommandResult)
          → prepare state draft filled now ≡ r
          → Composing commit state draft now (
              finish_command commit state store r (λ c.
                commit_composed commit state c (persist_identity commit store c.updated_identity)))
      outcome (failure r) e = refuses r store (prepare-Reports state draft filled now r e)
      outcome (success c) e =
          commit_composed-Composing state draft now c
            (persist_identity commit store c.updated_identity)
            (prepare-IsPrepared state draft filled now c e)

  -- A command that succeeds has put the draft's post, waiting to be sent, at the end of the timeline.
  pub compose-posted :
      (state : MessengerState) (store : Store) (draft : PostDraft) (filled : Option (List ℕ))
      (now : Option ℤ)
      → IsTimeline state.timeline
      → (compose commit state store draft filled now).0.error ≡ none
      → (c : Composed) × IsPrepared state draft now c
        × ((compose commit state store draft filled now).0.message_id ≡ some c.post.message_id)
        × (find (compose commit state store draft filled now).1.timeline.entries c.post.message_id
            ≡ some (record {
              post = c.post;
              received_order = state.timeline.last_assigned_order + 1;
              origin = local_delivery queued;
            }))
  unfolding insert_local
  compose-posted state store draft filled now v ok =
      posted (compose commit state store draft filled now)
        (compose-Composing state store draft filled now) ok
    where
      posted :
          (o : Outcome commit)
          → Composing commit state draft now o
          → o.0.error ≡ none
          → (c : Composed) × IsPrepared state draft now c
            × (o.0.message_id ≡ some c.post.message_id)
            × (find o.1.timeline.entries c.post.message_id
                ≡ some (record {
                  post = c.post;
                  received_order = state.timeline.last_assigned_order + 1;
                  origin = local_delivery queued;
                }))
      posted o (refuses r after bad) good = absurd (bad good)
      posted o (skips_number identity after known) good = absurd (cc good)
      posted o (posts c after w) good = (
        c,
        w,
        refl,
        subst
            (λ (t : Timeline).
              find t.entries c.post.message_id
              ≡ some (record {
                post = c.post;
                received_order = state.timeline.last_assigned_order + 1;
                origin = local_delivery queued;
              }))
            (sym (ap (λ (x : TimelineInsertResult × Timeline). x.1) w.inserted_same))
            (insert-finds state.timeline c.post (local_delivery queued) c.post.reply_to v (
              sym (ap (λ (x : TimelineInsertResult × Timeline). x.0.error) w.inserted_same)
              ∙ w.inserted_ok)),
      )
