-- ===== src/Application/MessengerState/Reports.antt =====
-- Wherever the checks of `compose` stop, they report an error.
use lora_messenger.Common.{
  ℕ, ◌≡◌, ◌≢◌, refl, subst, Bool, true, false, not, Option, none, some, List, length, ltb, leb,
  nat_eq, arith,
}
use lora_messenger.Core.Result.{Result, success, failure, ◌>>=◌, ◌>>◌, reject}
use lora_messenger.Core.Text.{TextError, create_post_body}
use lora_messenger.Core.Uuid.{MessageId, message_id_generate}
use lora_messenger.Model.Identity.{next_sender_sequence, commit_sender_sequence}
use lora_messenger.Model.Post.{ℤ, PostError, create_post, max_mentions}
use lora_messenger.Model.Timeline.{is_some, insert_local, insertion_availability}
use lora_messenger.Model.Timeline.State.{
  Timeline, TimelineInsertResult, queued, queued_capacity, queued_count, find,
}
use lora_messenger.Application.MessengerState.{prepare, post_input, has_duplicate, is_reply_missing}
use lora_messenger.Application.MessengerState.Results.{
  MessengerState, PostDraft, CommandResult, CommandError, required, map_error, refuse_if,
  post_refused, text_refused, command_error, map_availability, map_insert_result, not_initialized,
  map_insert_error, invalid_body, too_many_mentions, duplicate_mention, reply_parent_unavailable,
  queue_full, sequence_exhausted, random_unavailable, message_id_collision,
}
use lora_messenger.Model.Timeline.State.{
  TimelineInsertError, order_exhausted, full, duplicate, conflict,
}

-- A chain of checks that reports an error wherever it stops.
abbrev pub Reports {ℓ} : {A : Type ℓ} → Result A CommandResult → Type ℓ
Reports r = (e : CommandResult) → r ≡ failure e → e.error ≢ none

abbrev pub IsError : CommandResult → Type 0
IsError e = e.error ≢ none

pub command_error-IsError : (e : CommandError) → IsError (command_error e)
command_error-IsError e h = cc h

text_refused-IsError : (e : TextError) → IsError (text_refused invalid_body e)
text_refused-IsError e h = cc h

post_refused-IsError : (e : PostError) → IsError (post_refused e)
post_refused-IsError e h = cc h

module _ {ℓ} {A : Type ℓ} where
  failed-Reports : (r : CommandResult) → IsError r → Reports {A = A} (failure r)
  failed-Reports r h e f = subst IsError (same f) h
    where
      same :
          {x y : CommandResult} → ◌≡◌ {A = Result A CommandResult} (failure x) (failure y) → x ≡ y
      same e = cc e

  success-Reports : (a : A) → Reports (success a)
  success-Reports a e f = absurd (cc f)

  required-Reports : (o : Option A) (r : CommandResult) → IsError r → Reports (required o r)
  required-Reports none r h = failed-Reports r h
  required-Reports (some a) r h = success-Reports a

  map_error-Reports {κ} :
      {E : Type κ} (m : Result A E) (f : E → CommandResult)
      → ((e : E) → IsError (f e))
      → Reports (map_error m f)
  map_error-Reports (success a) f h = success-Reports a
  map_error-Reports (failure e) f h = failed-Reports (f e) (h e)

  reject-Reports :
      (b : Bool) (r : CommandResult) (k : Result A CommandResult)
      → (b ≡ true → IsError r)
      → Reports k
      → Reports (reject b r >> k)
  reject-Reports true r k h l = failed-Reports r (h refl)
  reject-Reports false r k h l = l

  refuse_if-Reports {κ} :
      {E : Type κ} (o : Option E) (f : E → CommandResult) (k : Result A CommandResult)
      → ((e : E) → o ≡ some e → IsError (f e))
      → Reports k
      → Reports (refuse_if o f >> k)
  refuse_if-Reports none f k h l = l
  refuse_if-Reports (some e) f k h l = failed-Reports (f e) (h e refl)

bind-Reports {ℓ κ} :
    {A : Type ℓ} {B : Type κ} (m : Result A CommandResult) (k : A → Result B CommandResult)
    → Reports m
    → ((a : A) → Reports (k a))
    → Reports (m >>= k)
bind-Reports (success a) k h l = l a
bind-Reports {A = A} {B = B} (failure r) k h l = failed-Reports r (h r refl)

availability-IsError :
    (t : Timeline) (protected : Option MessageId) (e : TimelineInsertError)
    → insertion_availability t protected ≡ some e
    → IsError (map_availability e)
unfolding insertion_availability
availability-IsError t protected full h e = cc e
availability-IsError t protected order_exhausted h e = cc e
availability-IsError t protected duplicate h e = ground (arith, h)
availability-IsError t protected conflict h e = ground (arith, h)
availability-IsError t protected TimelineInsertError.queue_full h e = ground (arith, h)

inserted-IsError :
    (result : TimelineInsertResult)
    → is_some result.error ≡ true
    → IsError (map_insert_result result)
inserted-IsError result h = some_error result.error h
  where
    some_error : (o : Option TimelineInsertError) → is_some o ≡ true → map_insert_error o ≢ none
    some_error none h e = absurd (cc h)
    some_error (some duplicate) h e = cc e
    some_error (some conflict) h e = cc e
    some_error (some TimelineInsertError.queue_full) h e = cc e
    some_error (some full) h e = cc e
    some_error (some order_exhausted) h e = cc e

pub prepare-Reports :
    (state : MessengerState) (draft : PostDraft) (filled : Option (List ℕ)) (now : Option ℤ)
    → Reports (prepare state draft filled now)
unfolding prepare
prepare-Reports state draft filled now =
    let t = state.timeline in
    bind-Reports (required (state.identity) (command_error not_initialized)) _
      (required-Reports (state.identity) (command_error not_initialized)
        (command_error-IsError not_initialized))
      λ identity.
        bind-Reports (map_error (create_post_body draft.body) (text_refused invalid_body)) _
          (map_error-Reports (create_post_body draft.body) (text_refused invalid_body)
            (text_refused-IsError))
          λ body.
            reject-Reports (ltb max_mentions (length draft.mentions))
              (command_error too_many_mentions) _ (λ _. command_error-IsError too_many_mentions)
              (reject-Reports (has_duplicate draft.mentions) (command_error duplicate_mention) _
                (λ _. command_error-IsError duplicate_mention)
                (reject-Reports (is_reply_missing t draft.reply_to)
                  (command_error reply_parent_unavailable) _
                  (λ _. command_error-IsError reply_parent_unavailable)
                  (reject-Reports (leb (queued_capacity t) (queued_count t.entries))
                    (command_error queue_full) _ (λ _. command_error-IsError queue_full)
                    (bind-Reports
                      (required (next_sender_sequence identity) (command_error sequence_exhausted))
                      _
                      (required-Reports (next_sender_sequence identity)
                        (command_error sequence_exhausted)
                        (command_error-IsError sequence_exhausted))
                      λ sequence.
                        reject-Reports (not (commit_sender_sequence identity sequence).0)
                          (command_error sequence_exhausted) _
                          (λ _. command_error-IsError sequence_exhausted)
                          (refuse_if-Reports (insertion_availability t draft.reply_to)
                            map_availability _ (availability-IsError t draft.reply_to)
                            (bind-Reports
                              (map_error (message_id_generate filled)
                                (λ _. command_error random_unavailable))
                              _
                              (map_error-Reports (message_id_generate filled)
                                (λ _. command_error random_unavailable)
                                (λ _. command_error-IsError random_unavailable))
                              λ message_id.
                                reject-Reports (is_some (find t.entries message_id))
                                  (command_error message_id_collision) _
                                  (λ _. command_error-IsError message_id_collision)
                                  (bind-Reports
                                    (map_error
                                      (create_post
                                        (post_input identity draft sequence message_id now))
                                      (post_refused))
                                    _
                                    (map_error-Reports
                                      (create_post
                                        (post_input identity draft sequence message_id now))
                                      (post_refused) (post_refused-IsError))
                                    λ post.
                                      reject-Reports (is_some (insert_local t post queued).0.error)
                                        (map_insert_result (insert_local t post queued).0) _
                                        (inserted-IsError (insert_local t post queued).0)
                                        (success-Reports _))))))))
