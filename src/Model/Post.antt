-- ===== src/Model/Post.antt =====
-- src/model/post.h and post.cpp: a post and its validation.
pub mod Valid
pub mod Tests
use lora_messenger.Common.{
  ℕ, zero, suc, ◌≡◌, ◌↔◌, Bool, true, false, not, ◌&&◌, ◌||◌, Option, none, some, List, [], ◌∷◌,
  ◌++◌, length, ltb, ◌==◌, nat_eq, Eq, list_eq, option_eq, list_beq_iff, option_beq_iff,
  if◌then◌else◌, arith, nat_beq_iff, nat_beq,
}
use lora_messenger.Core.Result.{Result, success, failure, ◌>>=◌, ◌>>◌, reject, or_fail}
use lora_messenger.Core.Text.{UserId, PostBody, create_user_id, create_post_body}
use lora_messenger.Core.Uuid.{
  Uuid, InstallId, MessageId, install_id_from_uuid, message_id_from_uuid, message_id_eq,
  install_id_eq,
}

-- `std::int64_t`, of which `ports::UnixSeconds` is one; `negsuc n` is -(n + 1).
pub data ℤ : Type 0 where
  pos : ℕ → ℤ
  negsuc : ℕ → ℤ

abbrev pub max_mentions : ℕ
max_mentions = 4

-- `None` of the source's enumeration is a success.
pub data PostError : Type 0 where
  invalid_message_id invalid_sender_id invalid_sender_sequence invalid_sender_user_id : PostError
  invalid_body too_many_mentions invalid_mention_id duplicate_mention : PostError
  invalid_reply_id self_reply : PostError

pub record PostPayloadInput : Type 0 where
  pub message_id : Uuid
  pub sender_id : Uuid
  pub sender_sequence : ℕ
  pub sender_user_id : List ℕ
  pub body : List ℕ
  pub mentions : List Uuid
  pub reply_to : Option Uuid
  pub sender_time : Option ℤ

pub record PostPayload : Type 0 where
  pub message_id : MessageId
  pub sender_id : InstallId
  pub sender_sequence : ℕ
  pub sender_user_id : UserId
  pub body : PostBody
  pub mentions : List InstallId
  pub reply_to : Option MessageId
  pub sender_time : Option ℤ

module _ {ℓ} {A : Type ℓ} ⦃e : Eq A⦄ where
  -- `std::find(…) != end()`
  unfoldable pub contains : List A → A → Bool
  contains [] a = false
  contains (x ∷ xs) a = x == a || contains xs a

-- The loop over the mentions; `seen` are those accepted so far.
pub accept_mentions : List InstallId → List Uuid → Result (List InstallId) PostError
unfolding contains
accept_mentions seen [] = success seen
accept_mentions seen (raw_mention ∷ rest) = do
  mention ← or_fail (install_id_from_uuid raw_mention) invalid_mention_id
  reject (contains seen mention) duplicate_mention
  accept_mentions (seen ++ (mention ∷ [])) rest

pub accept_reply : MessageId → Option Uuid → Result (Option MessageId) PostError
accept_reply message_id none = success none
accept_reply message_id (some raw_reply) = do
  reply ← or_fail (message_id_from_uuid raw_reply) invalid_reply_id
  reject (reply == message_id) self_reply
  success (some reply)

pub create_post : PostPayloadInput → Result PostPayload PostError
create_post input = do
  message_id ← or_fail (message_id_from_uuid input.message_id) invalid_message_id
  sender_id ← or_fail (install_id_from_uuid input.sender_id) invalid_sender_id
  reject (input.sender_sequence == 0) invalid_sender_sequence
  sender_user_id ← or_fail (create_user_id input.sender_user_id) invalid_sender_user_id
  body ← or_fail (create_post_body input.body) invalid_body
  reject (ltb max_mentions (length input.mentions)) too_many_mentions
  mentions ← accept_mentions [] input.mentions
  reply_to ← accept_reply message_id input.reply_to
  success (record {
    message_id = message_id;
    sender_id = sender_id;
    sender_sequence = input.sender_sequence;
    sender_user_id = sender_user_id;
    body = body;
    mentions = mentions;
    reply_to = reply_to;
    sender_time = input.sender_time;
  })

abbrev pub int_beq : ℤ → ℤ → Bool
int_beq (pos a) (pos b) = nat_beq a b
int_beq (pos a) (negsuc b) = false
int_beq (negsuc a) (pos b) = false
int_beq (negsuc a) (negsuc b) = nat_beq a b

pub int_beq_iff : (a b : ℤ) → (int_beq a b ≡ true) ↔ (a ≡ b)
int_beq_iff (pos a) (pos b) = ground (arith, nat_beq_iff a b)
int_beq_iff (pos a) (negsuc b) = ground arith
int_beq_iff (negsuc a) (pos b) = ground arith
int_beq_iff (negsuc a) (negsuc b) = ground (arith, nat_beq_iff a b)

instance abbrev pub int_eq : Eq ℤ
int_eq = record { beq = int_beq; beq_iff = int_beq_iff }

abbrev pub post_beq : PostPayload → PostPayload → Bool
post_beq left right =
    left.message_id == right.message_id
    && left.sender_id == right.sender_id
    && left.sender_sequence == right.sender_sequence
    && left.sender_user_id.value == right.sender_user_id.value
    && left.body.value == right.body.value
    && left.mentions == right.mentions
    && left.reply_to == right.reply_to
    && left.sender_time == right.sender_time

pub post_beq_iff : (a b : PostPayload) → (post_beq a b ≡ true) ↔ (a ≡ b)
post_beq_iff a b = ground (
  arith,
  message_id_eq.beq_iff a.message_id b.message_id,
  install_id_eq.beq_iff a.sender_id b.sender_id,
  list_beq_iff a.sender_user_id.value b.sender_user_id.value,
  list_beq_iff a.body.value b.body.value,
  list_beq_iff a.mentions b.mentions,
  option_beq_iff a.reply_to b.reply_to,
  option_beq_iff a.sender_time b.sender_time,
)

instance abbrev pub post_eq : Eq PostPayload
post_eq = record { beq = post_beq; beq_iff = post_beq_iff }
