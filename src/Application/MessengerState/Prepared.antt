-- ===== src/Application/MessengerState/Prepared.antt =====
-- What `compose` knows of the post, the identity and the timeline that it is about to commit.
use lora_messenger.Common.{
  ℕ, ◌+◌, ◌-◌, ◌^◌, ◌≡◌, ◌≢◌, refl, ap, ◌∙◌, subst, false, not, Option, none, some, List, length,
  ltb, leb, ◌==◌, nat_eq, arith, Bool-cases, inl, inr, nat_beq_iff,
}
use lora_messenger.Core.Result.{
  Result, success, failure, ◌>>=◌, reject-eq_success, >>=-eq_success, success-injective,
}
use lora_messenger.Core.Text.{create_post_body}
use lora_messenger.Core.Uuid.{MessageId, message_id_generate}
use lora_messenger.Model.Identity.{
  Identity, restore_identity, next_sender_sequence, commit_sender_sequence,
}
use lora_messenger.Model.Post.{ℤ, create_post, max_mentions}
use lora_messenger.Model.Post.Valid.{create_post-IsPost}
use lora_messenger.Model.Post.Valid.Rules.{IsPost}
use lora_messenger.Model.Post.Valid.Rules.{raw}
use lora_messenger.Model.Timeline.{is_some, insert_local, insertion_availability}
use lora_messenger.Model.Timeline.State.{queued, queued_capacity, queued_count, find}
use lora_messenger.Application.MessengerState.{
  Composed, prepare, post_input, has_duplicate, is_reply_missing,
}
use lora_messenger.Application.MessengerState.Results.{
  MessengerState, PostDraft, required, map_error, refuse_if, post_refused, text_refused,
  command_error, map_availability, map_insert_result, not_initialized, invalid_body,
  too_many_mentions, duplicate_mention, reply_parent_unavailable, queue_full, sequence_exhausted,
  random_unavailable, message_id_collision,
}

pub required-eq_success {ℓ κ} :
    {A : Type ℓ} {E : Type κ} (o : Option A) (e : E) {a : A} → required o e ≡ success a → o ≡ some a
required-eq_success none e h = absurd (cc h)
required-eq_success (some b) e h = ap some (success-injective h)

pub map_error-eq_success {ℓ κ ι} :
    {A : Type ℓ} {E : Type κ} {F : Type ι} (r : Result A E) (f : E → F) {a : A}
    → map_error r f ≡ success a
    → r ≡ success a
map_error-eq_success (success b) f h = ap success (success-injective h)
map_error-eq_success (failure e) f h = absurd (cc h)

pub refuse_if-eq_success {κ ι ℓ} :
    {E : Type κ} {F : Type ι} {A : Type ℓ} (o : Option E) (f : E → F) (k : Result A F) {a : A}
    → (refuse_if o f >>= (λ _. k)) ≡ success a
    → (o ≡ none) × (k ≡ success a)
refuse_if-eq_success none f k h = (refl, h)
refuse_if-eq_success (some e) f k h = absurd (cc h)

no_error {ℓ} : {A : Type ℓ} (o : Option A) → is_some o ≡ false → o ≡ none
no_error none h = refl
no_error (some a) h = absurd (cc h)

-- The post carries the draft, under this device's next sequence number.
pub record IsPrepared (state : MessengerState) (draft : PostDraft) (now : Option ℤ) (c : Composed)
    : Type 0 where
  pub identity : Identity
  pub known : state.identity ≡ some identity
  pub below : identity.last_issued_sender_sequence ≢ 2 ^ 64 - 1
  pub updated :
      c.updated_identity
      ≡ restore_identity identity.install_id identity.user_id
          (identity.last_issued_sender_sequence + 1)
  pub message_id : MessageId
  pub contents :
      raw c.post
      ≡ post_input identity draft (identity.last_issued_sender_sequence + 1) message_id now
  pub valid : IsPost c.post
  pub inserted_same : (c.inserted, c.candidate) ≡ insert_local state.timeline c.post queued
  pub inserted_ok : c.inserted.error ≡ none

next-committed :
    (identity : Identity) (sequence : ℕ)
    → next_sender_sequence identity ≡ some sequence
    → (identity.last_issued_sender_sequence ≢ 2 ^ 64 - 1)
      × (sequence ≡ identity.last_issued_sender_sequence + 1)
      × ((commit_sender_sequence identity sequence).1
          ≡ restore_identity identity.install_id identity.user_id
              (identity.last_issued_sender_sequence + 1))
unfolding next_sender_sequence commit_sender_sequence
next-committed identity sequence e =
    elim (Bool-cases (identity.last_issued_sender_sequence == 2 ^ 64 - 1)) [
      | inl last ↦ absurd (ground (arith, e, last))
      | inr more ↦
          let next : sequence ≡ identity.last_issued_sender_sequence + 1 =
            ground (arith, e, more) in
          (
            ground (arith, more),
            next,
            rw next (
                ground (
                  arith,
                  more,
                  nat_beq_iff (identity.last_issued_sender_sequence + 1)
                      (identity.last_issued_sender_sequence + 1),
                )),
          )
    ]

pub prepare-IsPrepared :
    (state : MessengerState) (draft : PostDraft) (filled : Option (List ℕ)) (now : Option ℤ)
    (c : Composed)
    → prepare state draft filled now ≡ success c
    → IsPrepared state draft now c
unfolding prepare
prepare-IsPrepared state draft filled now c e =
    let t = state.timeline in
    let (identity, e0, f0) =
      >>=-eq_success (required state.identity (command_error not_initialized)) _ e in
    let (body, e1, f1) =
      >>=-eq_success (map_error (create_post_body draft.body) (text_refused invalid_body)) _ f0 in
    let (_, f2) =
      reject-eq_success (ltb max_mentions (length draft.mentions)) (command_error too_many_mentions)
        _ f1 in
    let (_, f3) =
      reject-eq_success (has_duplicate draft.mentions) (command_error duplicate_mention) _ f2 in
    let (_, f4) =
      reject-eq_success (is_reply_missing t draft.reply_to) (command_error reply_parent_unavailable)
        _ f3 in
    let (_, f5) =
      reject-eq_success (leb (queued_capacity t) (queued_count t.entries))
        (command_error queue_full) _ f4 in
    let (sequence, e6, f6) =
      >>=-eq_success (required (next_sender_sequence identity) (command_error sequence_exhausted)) _
        f5 in
    let (_, f7) =
      reject-eq_success (not (commit_sender_sequence identity sequence).0)
        (command_error sequence_exhausted) _ f6 in
    let (_, f8) =
      refuse_if-eq_success (insertion_availability t draft.reply_to) map_availability _ f7 in
    let (message_id, e9, f9) =
      >>=-eq_success
        (map_error (message_id_generate filled) (λ _. command_error random_unavailable)) _ f8 in
    let (_, f10) =
      reject-eq_success (is_some (find t.entries message_id)) (command_error message_id_collision) _
        f9 in
    let (post, e11, f11) =
      >>=-eq_success
        (map_error (create_post (post_input identity draft sequence message_id now)) post_refused) _
        f10 in
    let inserted = (insert_local t post queued).0 in
    let (ok, f12) = reject-eq_success (is_some inserted.error) (map_insert_result inserted) _ f11 in
    let (below, next, updated) =
      next-committed identity sequence (
        required-eq_success (next_sender_sequence identity) (command_error sequence_exhausted)
          e6) in
    let (valid, contents) =
      create_post-IsPost (post_input identity draft sequence message_id now) post (
        map_error-eq_success (create_post (post_input identity draft sequence message_id now))
          post_refused e11) in
    subst (IsPrepared state draft now) (success-injective f12) (record {
      identity = identity;
      known = required-eq_success state.identity (command_error not_initialized) e0;
      below = below;
      updated = updated;
      message_id = message_id;
      contents = contents ∙ ap (λ (n : ℕ). post_input identity draft n message_id now) next;
      valid = valid;
      inserted_same = refl;
      inserted_ok = no_error inserted.error ok;
    })
