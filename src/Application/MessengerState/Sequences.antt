-- ===== src/Application/MessengerState/Sequences.antt =====
-- Runs of commands and restarts, and the sequence number of the next post.
use lora_messenger.Common.{ℕ, ◌+◌, ◌≡◌, refl, Bool, Option, some, List, arith}
use lora_messenger.Core.Result.{success}
use lora_messenger.Core.Uuid.{MessageId}
use lora_messenger.Model.Identity.{Identity}
use lora_messenger.Model.Post.{ℤ, PostPayload}
use lora_messenger.Model.Timeline.State.{Timeline}
use lora_messenger.Application.MessengerState.{
  Composed, prepare, rename_user, compose, accept_received, transition,
}
use lora_messenger.Application.MessengerState.Results.{MessengerState, StateCommit, PostDraft}
use lora_messenger.Application.MessengerState.Prepared.{prepare-IsPrepared}
use lora_messenger.Application.MessengerState.Local.{LocalBelow, LocalBelow-more}
use lora_messenger.Application.MessengerState.Safe.{IsCommit, IsSafe}
use lora_messenger.Application.MessengerState.Commands.{
  prepared-IsFirst, rename_user-IsSafe, compose-IsSafe, accept_received-IsSafe, transition-IsSafe,
}

module _ {Store : Type 0} (port : StateCommit Store) (stored_identity : Store → Option Identity)
    (stored_timeline : Store → Option Timeline) where
  -- A command, with whatever result, or a start with what the store holds.
  pub data Step (state : MessengerState) (store : Store) : MessengerState → Store → Type 0 where
    renames :
        (name : List ℕ)
        → Step state store
            (rename_user (some port) state store name).1
            (rename_user (some port) state store name).2
    composes :
        (draft : PostDraft) (filled : Option (List ℕ)) (now : Option ℤ)
        → Step state store
            (compose (some port) state store draft filled now).1
            (compose (some port) state store draft filled now).2
    receives :
        (post : PostPayload)
        → Step state store
            (accept_received (some port) state store post).1
            (accept_received (some port) state store post).2
    moves :
        (message_id : MessageId) (is_broadcast : Bool)
        → Step state store
            (transition (some port) state store message_id is_broadcast).1
            (transition (some port) state store message_id is_broadcast).2
    restarts :
        (timeline : Timeline)
        → stored_timeline store ≡ some timeline
        → Step state store (record { identity = stored_identity store; timeline = timeline }) store

  -- What some steps lead to.
  pub data Run : MessengerState → Store → MessengerState → Store → Type 0 where
    stay : (state : MessengerState) (store : Store) → Run state store state store
    go :
        (state : MessengerState) (store : Store) (next : MessengerState) (after : Store)
        (last : MessengerState) (final : Store)
        → Step state store next after
        → Run next after last final
        → Run state store last final

  module _ (contract : IsCommit port stored_identity stored_timeline) where
    abbrev Safe : MessengerState → Store → Identity → Type 0
    Safe = IsSafe port stored_identity stored_timeline

    restart-IsSafe :
        (state : MessengerState) (store : Store) (timeline : Timeline) (mine : Identity)
        → Safe state store mine
        → stored_timeline store ≡ some timeline
        → (kept : Identity) × Safe
            (record { identity = stored_identity store; timeline = timeline })
            store
            kept
    restart-IsSafe state store timeline mine v e =
        let more =
          LocalBelow-more mine.last_issued_sender_sequence v.kept.last_issued_sender_sequence in
        (
          v.kept,
          record {
            known = v.stored;
            kept = v.kept;
            stored = v.stored;
            same_install = refl;
            ahead = omega arith;
            memory_below = more timeline.entries v.ahead (v.stored_below timeline e);
            stored_below = λ t h. more t.entries v.ahead (v.stored_below t h);
          },
        )

    Step-IsSafe :
        {state : MessengerState} {store : Store} {next : MessengerState} {after : Store}
        → Step state store next after
        → (mine : Identity) → Safe state store mine
        → (own : Identity) × Safe next after own
    Step-IsSafe {state} {store} (renames name) mine v =
        rename_user-IsSafe port stored_identity stored_timeline contract state store name mine v
    Step-IsSafe {state} {store} (composes draft filled now) mine v =
        compose-IsSafe port stored_identity stored_timeline contract state store draft filled now
          mine v
    Step-IsSafe {state} {store} (receives post) mine v =
        accept_received-IsSafe port stored_identity stored_timeline contract state store post mine v
    Step-IsSafe {state} {store} (moves message_id is_broadcast) mine v =
        transition-IsSafe port stored_identity stored_timeline contract state store message_id
          is_broadcast mine v
    Step-IsSafe {state} {store} (restarts timeline e) mine v =
        restart-IsSafe state store timeline mine v e

    Run-IsSafe :
        {state : MessengerState} {store : Store} {last : MessengerState} {final : Store}
        → Run state store last final
        → (mine : Identity) → Safe state store mine
        → (own : Identity) × Safe last final own
    Run-IsSafe (stay state store) mine v = (mine, v)
    Run-IsSafe (go state store next after last final step rest) mine v =
        let (own, w) = Step-IsSafe step mine v in Run-IsSafe rest own w

    -- From a state in which no post of this device has a number that is still to be issued, and with a
    -- store that keeps the contract of `IStateCommit`: after any commands, refused or not, and any
    -- restarts, the post that `compose` is about to commit has a sequence number above those of all
    -- posts of this device, in memory and in the store.
    pub Run-fresh_number :
        {state : MessengerState} {store : Store} {last : MessengerState} {final : Store}
        (mine : Identity) (draft : PostDraft) (filled : Option (List ℕ)) (now : Option ℤ)
        (c : Composed)
        → IsSafe port stored_identity stored_timeline state store mine
        → Run state store last final
        → prepare last draft filled now ≡ success c
        → (highest : ℕ) × (c.post.sender_sequence ≡ highest + 1)
          × LocalBelow highest last.timeline
          × ((t : Timeline) → stored_timeline final ≡ some t → LocalBelow highest t)
    Run-fresh_number {last = last} {final = final} mine draft filled now c v run e =
        let (own, w) = Run-IsSafe run mine v in
        let first =
          prepared-IsFirst port stored_identity stored_timeline contract last final draft now c own
            w (prepare-IsPrepared last draft filled now c e) in
        (own.last_issued_sender_sequence, first.numbered, w.memory_below, w.stored_below)
