-- ===== src/Model/Post/Valid.antt =====
-- What `PostPayload::create` promises, and that it accepts a post's own fields again.
pub mod Rules
use lora_messenger.Common.{
  ℕ, suc, ◌≡◌, ◌≤◌, ◌<◌, true, false, Option, none, some, List, [], ◌∷◌, ◌++◌, length, ltb, ◌==◌,
  nat_eq, arith, refl, append_assoc, append-nil, ap, ap₂, subst, ◌∙◌,
}
use lora_messenger.Core.Result.{
  success, or_fail, reject-eq_success, >>=-eq_success, or_fail-eq_success, success-injective,
}
use lora_messenger.Core.Text.{
  create_user_id, create_post_body, validate_text, max_user_id_bytes, max_post_body_bytes,
}
use lora_messenger.Core.Text.Users.{
  create_user_id-eq_success, create_post_body-eq_success, create_user_id_again,
  create_post_body_again,
}
use lora_messenger.Core.Uuid.{
  Uuid, is_v4, InstallId, MessageId, install_id_from_uuid, message_id_from_uuid, message_id_eq,
  install_id_eq,
}
use lora_messenger.Core.Uuid.Version.{
  install_id_from_uuid_again, install_id_from_uuid-eq_success, message_id_from_uuid_again,
  message_id_from_uuid-eq_success,
}
use lora_messenger.Model.Post.{
  PostPayload, PostPayloadInput, invalid_mention_id, duplicate_mention, invalid_reply_id,
  self_reply, invalid_message_id, invalid_sender_id, invalid_sender_sequence,
  invalid_sender_user_id, invalid_body, too_many_mentions, max_mentions, contains, accept_mentions,
  accept_reply, create_post,
}
use lora_messenger.Model.Post.Valid.Rules.{
  IsPost, Fresh, install_uuids, AllV4, reply_uuid, IsReply, raw,
}

abbrev Mentioned : List InstallId → List Uuid → List InstallId → Type 0
Mentioned seen raws out =
    (ms : List InstallId) × (out ≡ seen ++ ms)
    × (install_uuids ms ≡ raws)
    × AllV4 ms
    × Fresh seen ms

accept_mentions_step :
    (seen : List InstallId) (r : Uuid) (rs : List Uuid) {out : List InstallId}
    → accept_mentions seen (r ∷ rs) ≡ success out
    → (m : InstallId) × (install_id_from_uuid r ≡ success m)
      × (contains seen m ≡ false)
      × (accept_mentions (seen ++ (m ∷ [])) rs ≡ success out)
unfolding accept_mentions
accept_mentions_step seen r rs e =
    let (m, from, rest) =
      >>=-eq_success (or_fail (install_id_from_uuid r) invalid_mention_id) _ e in
    let (free, rest') = reject-eq_success (contains seen m) duplicate_mention _ rest in
    (m, or_fail-eq_success _ _ from, free, rest')

accept_mentions-Mentioned :
    (seen : List InstallId) (raws : List Uuid) {out : List InstallId}
    → accept_mentions seen raws ≡ success out
    → Mentioned seen raws out
accept_mentions-Mentioned seen [] e =
    unfold accept_mentions in ([], ground (arith, append-nil seen), refl, tt, tt)
accept_mentions-Mentioned seen (r ∷ rs) e =
    let (m, from, free, rest) = accept_mentions_step seen r rs e in
    let (raw_eq, v4) = install_id_from_uuid-eq_success r from in
    let (ms, out_eq, raws, all, fresh) = accept_mentions-Mentioned (seen ++ (m ∷ [])) rs rest in
    (
      m ∷ ms,
      out_eq ∙ append_assoc seen (m ∷ []) ms,
      ap₂ ◌∷◌ raw_eq raws,
      (rw raw_eq v4, all),
      (free, fresh),
    )

pub accept_mentions_again :
    (seen ms : List InstallId)
    → AllV4 ms
    → Fresh seen ms
    → accept_mentions seen (install_uuids ms) ≡ success (seen ++ ms)
unfolding accept_mentions
accept_mentions_again seen [] v f = rw append-nil
accept_mentions_again seen (m ∷ ms) v f = rw (install_id_from_uuid_again m v.0) (
    rw f.0 (
      accept_mentions_again (seen ++ (m ∷ [])) ms v.1 f.1
      ∙ ap success (append_assoc seen (m ∷ []) ms)))

accept_reply-IsReply :
    (message_id : MessageId) (raw_reply : Option Uuid) {out : Option MessageId}
    → accept_reply message_id raw_reply ≡ success out
    → IsReply message_id out × (reply_uuid out ≡ raw_reply)
unfolding accept_reply
accept_reply-IsReply message_id none e = ground arith
accept_reply-IsReply message_id (some r) e =
    let (m, from, rest) = >>=-eq_success (or_fail (message_id_from_uuid r) invalid_reply_id) _ e in
    let (other, rest') = reject-eq_success (m == message_id) self_reply _ rest in
    let (raw_eq, v4) = message_id_from_uuid-eq_success r (or_fail-eq_success _ _ from) in
    let done = success-injective rest' in rw (← done) (((rw raw_eq v4), other), ap some raw_eq)

accept_reply_again :
    (message_id : MessageId) (reply : Option MessageId)
    → IsReply message_id reply
    → accept_reply message_id (reply_uuid reply) ≡ success reply
unfolding accept_reply
accept_reply_again message_id none h = refl
accept_reply_again message_id (some r) h = rw (message_id_from_uuid_again r h.0) (rw h.1)

-- What the calls made by `PostPayload::create` returned, where it succeeds.
record Parts (input : PostPayloadInput) (p : PostPayload) : Type 0 where
  from_message_id : message_id_from_uuid input.message_id ≡ success p.message_id
  from_sender_id : install_id_from_uuid input.sender_id ≡ success p.sender_id
  from_sequence : (input.sender_sequence == 0) ≡ false
  from_name : create_user_id input.sender_user_id ≡ success p.sender_user_id
  from_body : create_post_body input.body ≡ success p.body
  few : ltb max_mentions (length input.mentions) ≡ false
  from_mentions : accept_mentions [] input.mentions ≡ success p.mentions
  from_reply : accept_reply p.message_id input.reply_to ≡ success p.reply_to
  same_sequence : p.sender_sequence ≡ input.sender_sequence
  same_time : p.sender_time ≡ input.sender_time

create_post-Parts :
    (input : PostPayloadInput) {p : PostPayload} → create_post input ≡ success p → Parts input p
unfolding create_post
create_post-Parts input {p} e =
    let (m, m_from, e1) =
      >>=-eq_success (or_fail (message_id_from_uuid input.message_id) invalid_message_id) _ e in
    let (s, s_from, e2) =
      >>=-eq_success (or_fail (install_id_from_uuid input.sender_id) invalid_sender_id) _ e1 in
    let (seq, e3) = reject-eq_success (input.sender_sequence == 0) invalid_sender_sequence _ e2 in
    let (u, u_from, e4) =
      >>=-eq_success (or_fail (create_user_id input.sender_user_id) invalid_sender_user_id) _ e3 in
    let (b, b_from, e5) =
      >>=-eq_success (or_fail (create_post_body input.body) invalid_body) _ e4 in
    let (few, e6) =
      reject-eq_success (ltb max_mentions (length input.mentions)) too_many_mentions _ e5 in
    let (ms, ms_from, e7) = >>=-eq_success (accept_mentions [] input.mentions) _ e6 in
    let (r, r_from, e8) = >>=-eq_success (accept_reply m input.reply_to) _ e7 in
    subst (Parts input) (success-injective e8) (record {
      from_message_id = or_fail-eq_success _ _ m_from;
      from_sender_id = or_fail-eq_success _ _ s_from;
      from_sequence = seq;
      from_name = or_fail-eq_success _ _ u_from;
      from_body = or_fail-eq_success _ _ b_from;
      few = few;
      from_mentions = ms_from;
      from_reply = r_from;
      same_sequence = refl;
      same_time = refl;
    })

length-install_uuids : (ms : List InstallId) → length (install_uuids ms) ≡ length ms
length-install_uuids [] = refl
length-install_uuids (m ∷ ms) = ap suc (length-install_uuids ms)

-- A post that `PostPayload::create` makes has the fields that it was given, unchanged, and keeps
-- every rule: identifiers of version 4, a sequence number above 0, a valid name and body, at most four
-- different mentions, and no reply to itself.
pub create_post-IsPost :
    (input : PostPayloadInput) (p : PostPayload)
    → create_post input ≡ success p
    → IsPost p × (raw p ≡ input)
create_post-IsPost input p e =
    let c = create_post-Parts input e in
    let (m_raw, m_v4) = message_id_from_uuid-eq_success _ c.from_message_id in
    let (s_raw, s_v4) = install_id_from_uuid-eq_success _ c.from_sender_id in
    let (u_ok, u_raw) = create_user_id-eq_success _ c.from_name in
    let (b_ok, b_raw) = create_post_body-eq_success _ c.from_body in
    let (ms, out, raws, all, fresh) = accept_mentions-Mentioned [] input.mentions c.from_mentions in
    let (is_reply, r_raw) = accept_reply-IsReply p.message_id input.reply_to c.from_reply in
    let names = ap install_uuids out ∙ raws in
    (
      record {
        message_id_v4 = rw m_raw m_v4;
        sender_id_v4 = rw s_raw s_v4;
        sequence_pos = ground (arith, c.from_sequence, c.same_sequence);
        name = rw u_raw u_ok;
        text = rw b_raw b_ok;
        mentions_le = ground (arith, c.few, length-install_uuids p.mentions, ap length names);
        mentions_v4 = rw out all;
        mentions_distinct = rw out fresh;
        reply = is_reply;
      },
      λ i. record {
        message_id = m_raw i;
        sender_id = s_raw i;
        sender_sequence = c.same_sequence i;
        sender_user_id = u_raw i;
        body = b_raw i;
        mentions = names i;
        reply_to = r_raw i;
        sender_time = c.same_time i;
      },
    )

-- A post that keeps the rules is created again from its own fields.
pub create_post_again : (p : PostPayload) → IsPost p → create_post (raw p) ≡ success p
unfolding create_post
create_post_again p v = rw (message_id_from_uuid_again p.message_id v.message_id_v4) (
    rw (install_id_from_uuid_again p.sender_id v.sender_id_v4) (
      rw (positive p.sender_sequence v.sequence_pos) (
        rw (create_user_id_again p.sender_user_id v.name) (
          rw (create_post_body_again p.body v.text) (
            rw
              (few_enough (install_uuids p.mentions)
                (omega (arith, v.mentions_le, length-install_uuids p.mentions)))
              (rw (accept_mentions_again [] p.mentions v.mentions_v4 v.mentions_distinct)
                (rw (accept_reply_again p.message_id p.reply_to v.reply))))))))
  where
    positive : (n : ℕ) → 0 < n → (n == 0) ≡ false
    positive n h = ground arith

    few_enough : (us : List Uuid) → length us ≤ max_mentions → ltb max_mentions (length us) ≡ false
    few_enough us h = ground arith
