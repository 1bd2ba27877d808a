-- ===== src/Model/Post/Valid/Rules.antt =====
-- The rules of a post of src/model/post.cpp.
use lora_messenger.Common.{
  ◌≡◌, ◌≤◌, ◌<◌, true, false, Option, none, some, List, [], ◌∷◌, ◌++◌, length, ◌==◌, nat_eq,
}
use lora_messenger.Core.Result.{success}
use lora_messenger.Core.Text.{validate_text, max_user_id_bytes, max_post_body_bytes}
use lora_messenger.Core.Uuid.{Uuid, is_v4, InstallId, MessageId, message_id_eq, install_id_eq}
use lora_messenger.Model.Post.{PostPayload, PostPayloadInput, max_mentions, contains}

-- No mention is among the ones before it, `seen` included.
abbrev pub Fresh : List InstallId → List InstallId → Type 0
Fresh seen [] = Unit {0}
Fresh seen (m ∷ ms) = (contains seen m ≡ false) × Fresh (seen ++ (m ∷ [])) ms

abbrev pub install_uuids : List InstallId → List Uuid
install_uuids [] = []
install_uuids (m ∷ ms) = m.uuid ∷ install_uuids ms

abbrev pub AllV4 : List InstallId → Type 0
AllV4 [] = Unit {0}
AllV4 (m ∷ ms) = (is_v4 m.uuid ≡ true) × AllV4 ms

abbrev pub reply_uuid : Option MessageId → Option Uuid
reply_uuid none = none
reply_uuid (some r) = some r.uuid

abbrev pub IsReply : MessageId → Option MessageId → Type 0
IsReply message_id none = Unit {0}
IsReply message_id (some r) = (is_v4 r.uuid ≡ true) × ((r == message_id) ≡ false)

pub record IsPost (p : PostPayload) : Type 0 where
  pub message_id_v4 : is_v4 p.message_id.uuid ≡ true
  pub sender_id_v4 : is_v4 p.sender_id.uuid ≡ true
  pub sequence_pos : 0 < p.sender_sequence
  pub name : validate_text p.sender_user_id.value max_user_id_bytes true ≡ success tt
  pub text : validate_text p.body.value max_post_body_bytes false ≡ success tt
  pub mentions_le : length p.mentions ≤ max_mentions
  pub mentions_v4 : AllV4 p.mentions
  pub mentions_distinct : Fresh [] p.mentions
  pub reply : IsReply p.message_id p.reply_to

-- The input from which a post would be created again.
abbrev pub raw : PostPayload → PostPayloadInput
raw p = record {
  message_id = p.message_id.uuid;
  sender_id = p.sender_id.uuid;
  sender_sequence = p.sender_sequence;
  sender_user_id = p.sender_user_id.value;
  body = p.body.value;
  mentions = install_uuids p.mentions;
  reply_to = reply_uuid p.reply_to;
  sender_time = p.sender_time;
}
