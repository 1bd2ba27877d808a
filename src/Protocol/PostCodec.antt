-- ===== src/Protocol/PostCodec.antt =====
-- src/protocol/post_codec.h and post_codec.cpp: the bytes of a post. A null pointer is `none`.
pub mod Offsets
pub mod Layout
pub mod Fields
pub mod RoundTrip
pub mod Pieces
pub mod Canonical
pub mod Tests
use lora_messenger.Common.{
  ℕ, zero, suc, ◌+◌, ◌-◌, ◌*◌, ◌/◌, ◌%◌, ◌^◌, bit_or, Bool, true, false, not, ◌&&◌, ◌||◌, Option,
  none, some, List, [], ◌∷◌, ◌++◌, length, get_or, take, drop, ltb, leb, ◌==◌, nat_eq,
  if◌then◌else◌,
}
use lora_messenger.Core.Result.{Result, success, failure, ◌>>=◌, ◌>>◌, reject, or_fail}
use lora_messenger.Core.Text.{max_user_id_bytes, max_post_body_bytes}
use lora_messenger.Core.Uuid.{Uuid, InstallId, MessageId}
use lora_messenger.Model.Post.{
  ℤ, pos, negsuc, PostPayload, PostPayloadInput, create_post, max_mentions,
}
use lora_messenger.Words.Network.{write_uint, read_uint}
use lora_messenger.Protocol.Limits.{
  Bytes, MessageTag, minimum_encoded_post_bytes, maximum_encoded_post_bytes,
}

-- `None` of the source's enumeration is a success.
pub data PostCodecError : Type 0 where
  null_data size_out_of_range reserved_flags length_mismatch invalid_post : PostCodecError

abbrev pub fixed_post_bytes : ℕ
fixed_post_bytes = 44

pub encode_signed : ℤ → ℕ
encode_signed (pos n) = n
encode_signed (negsuc n) = 2 ^ 64 - 1 - n

pub decode_signed : ℕ → ℤ
decode_signed value = if leb value (2 ^ 63 - 1) then pos value else negsuc (2 ^ 64 - 1 - value)

abbrev pub is_present {ℓ} : {A : Type ℓ} → Option A → Bool
is_present none = false
is_present (some a) = true

pub mention_bytes : List InstallId → Bytes
mention_bytes [] = []
mention_bytes (m ∷ ms) = m.uuid.bytes ++ mention_bytes ms

pub reply_bytes : Option MessageId → Bytes
reply_bytes none = []
reply_bytes (some r) = r.uuid.bytes

pub time_bytes : Option ℤ → Bytes
time_bytes none = []
time_bytes (some t) = write_uint 8 (encode_signed t)

pub post_flags : PostPayload → ℕ
post_flags post =
    let flags = if is_present post.reply_to then bit_or 0 1 else 0 in
    if is_present post.sender_time then bit_or flags 2 else flags

unfoldable pub encoded_size : PostPayload → ℕ
encoded_size post =
    fixed_post_bytes
    + length post.sender_user_id.value
    + length post.body.value
    + length post.mentions * 16
    + (if is_present post.reply_to then 16 else 0)
    + (if is_present post.sender_time then 8 else 0)

-- The appends to `output`, in their order.
pub post_bytes : PostPayload → Bytes
post_bytes post =
    post_flags post
    ∷ (post.message_id.uuid.bytes
        ++ (post.sender_id.uuid.bytes
            ++ (write_uint 8 post.sender_sequence
                ++ ((length post.sender_user_id.value % 256)
                    ∷ (length post.body.value % 256)
                    ∷ (length post.mentions % 256)
                    ∷ (post.sender_user_id.value
                        ++ (post.body.value
                            ++ (mention_bytes post.mentions
                                ++ (reply_bytes post.reply_to ++ time_bytes post.sender_time))))))))

unfoldable pub encode_post : PostPayload → Result Bytes PostCodecError
encode_post post = do
  reject
      (ltb max_user_id_bytes (length post.sender_user_id.value)
        || ltb max_post_body_bytes (length post.body.value)
        || ltb max_mentions (length post.mentions)
        || ltb (encoded_size post) minimum_encoded_post_bytes
        || ltb maximum_encoded_post_bytes (encoded_size post))
      size_out_of_range
  reject (not (length (post_bytes post) == encoded_size post)) length_mismatch
  success (post_bytes post)

pub read_uuid : Bytes → ℕ → Uuid
read_uuid bytes offset = record { bytes = take 16 (drop offset bytes) }

pub read_mentions : ℕ → Bytes → ℕ → List Uuid
read_mentions zero bytes offset = []
read_mentions (suc n) bytes offset = read_uuid bytes offset ∷ read_mentions n bytes (offset + 16)

abbrev pub has_reply : ℕ → Bool
has_reply flags = not (flags % 2 == 0)

abbrev pub has_time : ℕ → Bool
has_time flags = not (flags / 2 % 2 == 0)

pub read_reply : ℕ → Bytes → ℕ → Option Uuid
read_reply flags bytes offset = if has_reply flags then some (read_uuid bytes offset) else none

pub read_time : ℕ → Bytes → ℕ → Option ℤ
read_time flags bytes offset =
    if has_time flags
    then some (decode_signed (read_uint (2 ^ 64) 0 (take 8 (drop offset bytes))))
    else none

pub expected_size : Bytes → ℕ
expected_size bytes =
    fixed_post_bytes
    + get_or bytes 41 0
    + get_or bytes 42 0
    + get_or bytes 43 0 * 16
    + (if has_reply (get_or bytes 0 0) then 16 else 0)
    + (if has_time (get_or bytes 0 0) then 8 else 0)

-- The offset behind the mentions, from which the optional fields are read.
pub optional_offset : Bytes → ℕ
optional_offset bytes =
    fixed_post_bytes + get_or bytes 41 0 + get_or bytes 42 0 + get_or bytes 43 0 * 16

pub time_offset : Bytes → ℕ
time_offset bytes = optional_offset bytes + (if has_reply (get_or bytes 0 0) then 16 else 0)

pub end_offset : Bytes → ℕ
end_offset bytes = time_offset bytes + (if has_time (get_or bytes 0 0) then 8 else 0)

pub read_input : Bytes → PostPayloadInput
read_input bytes =
    let flags = get_or bytes 0 0 in
    let user_id_size = get_or bytes 41 0 in
    let body_size = get_or bytes 42 0 in
    record {
      message_id = read_uuid bytes 1;
      sender_id = read_uuid bytes 17;
      sender_sequence = read_uint (2 ^ 64) 0 (take 8 (drop 33 bytes));
      sender_user_id = take user_id_size (drop fixed_post_bytes bytes);
      body = take body_size (drop (fixed_post_bytes + user_id_size) bytes);
      mentions =
          read_mentions (get_or bytes 43 0) bytes (fixed_post_bytes + user_id_size + body_size);
      reply_to = read_reply flags bytes (optional_offset bytes);
      sender_time = read_time flags bytes (time_offset bytes);
    }

-- `flags & ~kKnownFlags` keeps the bits above the lower two.
unfoldable pub decode_post : Option Bytes → Result PostPayload PostCodecError
decode_post none = failure null_data
decode_post (some bytes) = do
  reject
      (ltb (length bytes) minimum_encoded_post_bytes
        || ltb maximum_encoded_post_bytes (length bytes))
      size_out_of_range
  reject (not (get_or bytes 0 0 / 4 == 0)) reserved_flags
  reject
      (ltb max_user_id_bytes (get_or bytes 41 0)
        || ltb max_post_body_bytes (get_or bytes 42 0)
        || ltb max_mentions (get_or bytes 43 0))
      length_mismatch
  reject (not (expected_size bytes == length bytes)) length_mismatch
  reject (not (end_offset bytes == length bytes)) length_mismatch
  or_fail (create_post (read_input bytes)) invalid_post

pub message_tag : MessageId → MessageTag
message_tag message_id = take 8 message_id.uuid.bytes
