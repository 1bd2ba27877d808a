-- ===== src/Application/MessengerState/Commands.antt =====
-- Every command, and every restart from the store, keeps the sequence numbers apart.
use lora_messenger.Common.{
  ℕ, ◌+◌, ◌≤◌, ◌≡◌, refl, sym, ap, ◌∙◌, subst, Bool, true, false, Option, none, some, List, arith,
  if◌then◌else◌,
}
use lora_messenger.Core.Result.{
  Result, success, failure, reject-eq_success, >>=-eq_success, success-injective,
}
use lora_messenger.Core.Uuid.{MessageId}
use lora_messenger.Core.Text.{create_user_id}
use lora_messenger.Model.Identity.{Identity, rename}
use lora_messenger.Model.Post.{ℤ, PostPayload, PostPayloadInput}
use lora_messenger.Model.Timeline.{
  insert_local, insert_received, mark_broadcast, mark_failed, is_some,
}
use lora_messenger.Model.Timeline.State.{
  Timeline, TimelineInsertResult, received_origin, local_delivery, queued, broadcast, failed,
}
use lora_messenger.Application.MessengerState.{
  Composed, Outcome, prepare, persist_identity, persist_timeline, adopt_identity, finish_command,
  renamed, rename_user, commit_composed, compose, composed_result, received, accept_received, moved,
  transition, transition_error,
}
use lora_messenger.Application.MessengerState.Results.{
  MessengerState, StateCommit, CommandResult, PostDraft, required, map_error, command_error,
  command_ok, text_refused, map_insert_result, not_initialized, invalid_user_id,
}
use lora_messenger.Application.MessengerState.Prepared.{
  IsPrepared, prepare-IsPrepared, required-eq_success, refuse_if-eq_success,
}
use lora_messenger.Application.MessengerState.Local.{
  EntryBelow, LocalBelow, LocalBelow-more, insert-All, transition-LocalBelow,
}
use lora_messenger.Application.MessengerState.Safe.{
  IsCommit, IsSafe, IsNext, IsSafeAfter, refused-IsSafe, taken-IsSafe, timeline-IsSafe,
  adopted-IsSafe,
}

module _ {Store : Type 0} (port : StateCommit Store) (stored_identity : Store → Option Identity)
    (stored_timeline : Store → Option Timeline)
    (contract : IsCommit port stored_identity stored_timeline) where
  abbrev Safe : MessengerState → Store → Identity → Type 0
  Safe = IsSafe port stored_identity stored_timeline

  abbrev SafeAfter : Outcome (some port) → Type 0
  SafeAfter = IsSafeAfter port stored_identity stored_timeline contract

  finish_command-IsSafe {ℓ} :
      {A : Type ℓ} (state : MessengerState) (store : Store) (r : Result A CommandResult)
      (next : A → Outcome (some port))
      → (mine : Identity) → Safe state store mine
      → ((a : A) → r ≡ success a → SafeAfter (next a))
      → SafeAfter (finish_command (some port) state store r next)
  finish_command-IsSafe state store (failure refused) next mine v h = (mine, v)
  finish_command-IsSafe state store (success a) next mine v h = h a refl

  adopt_identity-IsSafe :
      (state : MessengerState) (mine candidate : Identity) (answer : Bool × Store)
      → (answer.0 ≡ false → Safe state answer.1 mine)
      → (answer.0 ≡ true
          → Safe
              (record { identity = some candidate; timeline = state.timeline })
              answer.1
              candidate)
      → SafeAfter (adopt_identity (some port) state candidate answer)
  adopt_identity-IsSafe state mine candidate (false, store) h k = (mine, h refl)
  adopt_identity-IsSafe state mine candidate (true, store) h k = (candidate, k refl)

  same_identity : {a b : Identity} → ◌≡◌ {A = Option Identity} (some a) (some b) → a ≡ b
  same_identity e = cc e

  pub rename_user-IsSafe :
      (state : MessengerState) (store : Store) (name : List ℕ) (mine : Identity)
      → Safe state store mine
      → SafeAfter (rename_user (some port) state store name)
  unfolding rename_user persist_identity
  rename_user-IsSafe state store name mine v =
      finish_command-IsSafe state store (renamed (some port) state name) _ mine v (λ candidate e.
        let (identity, e0, f0) =
          >>=-eq_success (required state.identity (command_error not_initialized)) _ e in
        let (user_id, e1, f1) =
          >>=-eq_success (map_error (create_user_id name) (text_refused invalid_user_id)) _ f0 in
        let it : rename mine user_id ≡ candidate =
          ap (λ (i : Identity). rename i user_id)
            (same_identity
              (sym v.known ∙ required-eq_success state.identity (command_error not_initialized) e0))
          ∙ success-injective f1 in
        let next : IsNext port stored_identity stored_timeline contract mine candidate =
          subst (IsNext port stored_identity stored_timeline contract mine) it
            (record { install = refl; more = omega arith }) in
        adopt_identity-IsSafe state mine candidate (port.persist_identity store candidate)
          (refused-IsSafe port stored_identity stored_timeline contract state store candidate mine v
            next)
          (taken-IsSafe port stored_identity stored_timeline contract state store candidate mine v
            next))

  commit_composed-IsSafe :
      (state : MessengerState) (c : Composed) (mine : Identity) (answer : Bool × Store)
      → (answer.0 ≡ false → Safe state answer.1 mine)
      → (answer.0 ≡ true
          → Safe
              (record { identity = some c.updated_identity; timeline = state.timeline })
              answer.1
              c.updated_identity
            × LocalBelow c.updated_identity.last_issued_sender_sequence c.candidate)
      → SafeAfter (commit_composed (some port) state c answer)
  unfolding commit_composed persist_timeline
  commit_composed-IsSafe state c mine (false, store) h k = (mine, h refl)
  commit_composed-IsSafe state c mine (true, store) h k =
      let (w, below) = k refl in
      adopted-IsSafe port stored_identity stored_timeline contract (composed_result (some port) c) _
        c.candidate (port.persist_timeline store c.candidate) c.updated_identity
        (timeline-IsSafe port stored_identity stored_timeline contract _ store c.candidate
          c.updated_identity w below)
        below

  -- A composed post is the first with its number.
  pub record IsFirst (mine : Identity) (c : Composed) : Type 0 where
    pub next : IsNext port stored_identity stored_timeline contract mine c.updated_identity
    pub issued :
        c.updated_identity.last_issued_sender_sequence ≡ mine.last_issued_sender_sequence + 1
    pub numbered : c.post.sender_sequence ≡ mine.last_issued_sender_sequence + 1
    pub below : LocalBelow c.updated_identity.last_issued_sender_sequence c.candidate

  pub prepared-IsFirst :
      (state : MessengerState) (store : Store) (draft : PostDraft) (now : Option ℤ) (c : Composed)
      (mine : Identity)
      → Safe state store mine
      → IsPrepared state draft now c
      → IsFirst mine c
  unfolding insert_local
  prepared-IsFirst state store draft now c mine v w =
      let own = same_identity (sym w.known ∙ v.known) in
      let install : c.updated_identity.install_id ≡ mine.install_id =
        ap (λ (i : Identity). i.install_id) w.updated ∙ ap (λ (i : Identity). i.install_id) own in
      let last = ap (λ (i : Identity). i.last_issued_sender_sequence) own in
      let issued : c.updated_identity.last_issued_sender_sequence
          ≡ mine.last_issued_sender_sequence + 1 =
        ap (λ (i : Identity). i.last_issued_sender_sequence) w.updated
        ∙ ap (λ (n : ℕ). n + 1) last in
      let numbered : c.post.sender_sequence ≡ mine.last_issued_sender_sequence + 1 =
        ap (λ (i : PostPayloadInput). i.sender_sequence) w.contents ∙ ap (λ (n : ℕ). n + 1) last in
      let more : mine.last_issued_sender_sequence ≤ c.updated_identity.last_issued_sender_sequence =
        omega (arith, issued) in
      record {
        next = record { install = install; more = more };
        issued = issued;
        numbered = numbered;
        below =
            subst (LocalBelow c.updated_identity.last_issued_sender_sequence)
              (sym (ap (λ (x : TimelineInsertResult × Timeline). x.1) w.inserted_same))
              (insert-All (EntryBelow c.updated_identity.last_issued_sender_sequence) state.timeline
                c.post (local_delivery queued) c.post.reply_to
                (LocalBelow-more mine.last_issued_sender_sequence
                  c.updated_identity.last_issued_sender_sequence state.timeline.entries more
                  v.memory_below)
                (λ order. omega (arith, issued, numbered)));
      }

  pub compose-IsSafe :
      (state : MessengerState) (store : Store) (draft : PostDraft) (filled : Option (List ℕ))
      (now : Option ℤ) (mine : Identity)
      → Safe state store mine
      → SafeAfter (compose (some port) state store draft filled now)
  unfolding compose persist_identity
  compose-IsSafe state store draft filled now mine v =
      finish_command-IsSafe state store (prepare state draft filled now) _ mine v (λ c e.
        let first =
          prepared-IsFirst state store draft now c mine v
            (prepare-IsPrepared state draft filled now c e) in
        commit_composed-IsSafe state c mine (port.persist_identity store c.updated_identity)
          (refused-IsSafe port stored_identity stored_timeline contract state store
            c.updated_identity mine v first.next)
          (λ taken. (
            taken-IsSafe port stored_identity stored_timeline contract state store
                c.updated_identity mine v first.next taken,
            first.below,
          )))

  pub accept_received-IsSafe :
      (state : MessengerState) (store : Store) (post : PostPayload) (mine : Identity)
      → Safe state store mine
      → SafeAfter (accept_received (some port) state store post)
  unfolding accept_received persist_timeline insert_received
  accept_received-IsSafe state store post mine v =
      finish_command-IsSafe state store (received (some port) state post) _ mine v (λ found e.
        let (identity, e0, f0) =
          >>=-eq_success (required state.identity (command_error not_initialized)) _ e in
        let (_, f1) =
          reject-eq_success (is_some (insert_received state.timeline post).0.error)
            (map_insert_result (insert_received state.timeline post).0) _ f0 in
        let below : LocalBelow mine.last_issued_sender_sequence found.1 =
          subst
            (λ (x : TimelineInsertResult × Timeline).
              LocalBelow mine.last_issued_sender_sequence x.1)
            (success-injective f1)
            (insert-All (EntryBelow mine.last_issued_sender_sequence) state.timeline post
              received_origin none v.memory_below (λ order. tt)) in
        adopted-IsSafe port stored_identity stored_timeline contract (map_insert_result found.0)
          state found.1 (port.persist_timeline store found.1) mine
          (timeline-IsSafe port stored_identity stored_timeline contract state store found.1 mine v
            below)
          below)

  pub transition-IsSafe :
      (state : MessengerState) (store : Store) (message_id : MessageId) (is_broadcast : Bool)
      (mine : Identity)
      → Safe state store mine
      → SafeAfter (transition (some port) state store message_id is_broadcast)
  unfolding transition persist_timeline mark_broadcast mark_failed
  transition-IsSafe state store message_id is_broadcast mine v =
      let target = if is_broadcast then broadcast else failed in
      let step =
        if is_broadcast
        then mark_broadcast state.timeline message_id
        else mark_failed state.timeline message_id in
      finish_command-IsSafe state store (moved (some port) state step) _ mine v (λ candidate e.
        let (identity, e0, f0) =
          >>=-eq_success (required state.identity (command_error not_initialized)) _ e in
        let (_, f1) = refuse_if-eq_success step.0 (transition_error (some port)) _ f0 in
        let below : LocalBelow mine.last_issued_sender_sequence candidate =
          subst (LocalBelow mine.last_issued_sender_sequence) (success-injective f1)
            (stepped mine v is_broadcast) in
        adopted-IsSafe port stored_identity stored_timeline contract command_ok state candidate
          (port.persist_timeline store candidate) mine
          (timeline-IsSafe port stored_identity stored_timeline contract state store candidate mine
            v below)
          below)
    where
      stepped :
          (mine : Identity)
          → Safe state store mine
          → (b : Bool)
          → LocalBelow mine.last_issued_sender_sequence
              (if b
                then mark_broadcast state.timeline message_id
                else mark_failed state.timeline message_id).1
      stepped mine v true =
          transition-LocalBelow mine.last_issued_sender_sequence state.timeline message_id broadcast
            v.memory_below
      stepped mine v false =
          transition-LocalBelow mine.last_issued_sender_sequence state.timeline message_id failed
            v.memory_below
