-- ===== src/Protocol/PostCodec/Layout.antt =====
-- What `decode_post` reads at each offset of an encoded post.
use lora_messenger.Common.{
  ℕ, ◌*◌, ◌/◌, ◌^◌, ◌<◌, ◌≡◌, refl, Bool, Option, none, some, List, [], ◌∷◌, length, length-append,
  All, All-append, All-take, length-take, arith, if◌then◌else◌, nat_eq,
}
use lora_messenger.Core.Uuid.{IsUuid, InstallId, MessageId}
use lora_messenger.Model.Post.{ℤ, pos, negsuc, PostPayload}
use lora_messenger.Words.Network.{IsByte, write_uint, length-write_uint, write_uint-IsByte}
use lora_messenger.Protocol.PostCodec.{
  encode_signed, decode_signed, is_present, mention_bytes, reply_bytes, time_bytes, post_flags,
  post_bytes, has_reply, has_time, encoded_size, message_tag,
}

abbrev pub IsInt64 : ℤ → Type 0
IsInt64 (pos n) = n < 2 ^ 63
IsInt64 (negsuc n) = n < 2 ^ 63

abbrev pub AllUuid : List InstallId → Type 0
AllUuid [] = Unit {0}
AllUuid (m ∷ ms) = IsUuid m.uuid × AllUuid ms

abbrev pub IsReplyData : Option MessageId → Type 0
IsReplyData none = Unit {0}
IsReplyData (some r) = IsUuid r.uuid

abbrev pub IsTimeData : Option ℤ → Type 0
IsTimeData none = Unit {0}
IsTimeData (some t) = IsInt64 t

-- The ranges of the fields' types.
pub record IsPostData (p : PostPayload) : Type 0 where
  pub message_id_uuid : IsUuid p.message_id.uuid
  pub sender_id_uuid : IsUuid p.sender_id.uuid
  pub sequence_range : p.sender_sequence < 2 ^ 64
  pub name_bytes : All IsByte p.sender_user_id.value
  pub body_bytes : All IsByte p.body.value
  pub mention_uuids : AllUuid p.mentions
  pub reply_data : IsReplyData p.reply_to
  pub time_data : IsTimeData p.sender_time

pub decode_signed-encode_signed : (t : ℤ) → IsInt64 t → decode_signed (encode_signed t) ≡ t
unfolding decode_signed encode_signed
decode_signed-encode_signed (pos n) h = ground arith
decode_signed-encode_signed (negsuc n) h = ground arith

pub encode_signed-lt : (t : ℤ) → IsInt64 t → encode_signed t < 2 ^ 64
unfolding encode_signed
encode_signed-lt (pos n) h = omega arith
encode_signed-lt (negsuc n) h = omega arith

pub length-mention_bytes :
    (ms : List InstallId) → AllUuid ms → length (mention_bytes ms) ≡ length ms * 16
unfolding mention_bytes
length-mention_bytes [] w = refl
length-mention_bytes (m ∷ ms) w =
    omega
      (arith, length-append m.uuid.bytes (mention_bytes ms), w.0.size, length-mention_bytes ms w.1)

abbrev pub size_if : Bool → ℕ → ℕ
size_if b n = if b then n else 0

pub length-reply_bytes :
    (r : Option MessageId) → IsReplyData r → length (reply_bytes r) ≡ size_if (is_present r) 16
unfolding reply_bytes
length-reply_bytes none w = refl
length-reply_bytes (some r) w = w.size

pub length-time_bytes : (t : Option ℤ) → length (time_bytes t) ≡ size_if (is_present t) 8
unfolding time_bytes
length-time_bytes none = refl
length-time_bytes (some t) = length-write_uint 8 (encode_signed t)

pub length-post_bytes : (p : PostPayload) → IsPostData p → length (post_bytes p) ≡ encoded_size p
unfolding post_bytes encoded_size
length-post_bytes p w = simp length-append (
    omega (
      arith,
      w.message_id_uuid.size,
      w.sender_id_uuid.size,
      length-write_uint 8 p.sender_sequence,
      length-mention_bytes p.mentions w.mention_uuids,
      length-reply_bytes p.reply_to w.reply_data,
      length-time_bytes p.sender_time,
    ))

pub flags_of :
    (p : PostPayload)
    → (post_flags p / 4 ≡ 0)
      × (has_reply (post_flags p) ≡ is_present p.reply_to)
      × (has_time (post_flags p) ≡ is_present p.sender_time)
unfolding post_flags
flags_of p = ground arith

mention_bytes-IsByte : (ms : List InstallId) → AllUuid ms → All IsByte (mention_bytes ms)
unfolding mention_bytes
mention_bytes-IsByte [] w = tt
mention_bytes-IsByte (m ∷ ms) w =
    All-append IsByte m.uuid.bytes (mention_bytes ms) w.0.range (mention_bytes-IsByte ms w.1)

reply_bytes-IsByte : (r : Option MessageId) → IsReplyData r → All IsByte (reply_bytes r)
unfolding reply_bytes
reply_bytes-IsByte none w = tt
reply_bytes-IsByte (some r) w = w.range

time_bytes-IsByte : (t : Option ℤ) → All IsByte (time_bytes t)
unfolding time_bytes
time_bytes-IsByte none = tt
time_bytes-IsByte (some t) = write_uint-IsByte 8 (encode_signed t)

pub post_bytes-IsByte : (p : PostPayload) → IsPostData p → All IsByte (post_bytes p)
unfolding post_bytes
post_bytes-IsByte p w =
    let join = All-append IsByte in
    (
      omega (arith, flags_of p),
      join p.message_id.uuid.bytes _ w.message_id_uuid.range (
          join p.sender_id.uuid.bytes _ w.sender_id_uuid.range (
            join (write_uint 8 p.sender_sequence) _ (write_uint-IsByte 8 p.sender_sequence) (
              omega arith,
              (
                omega arith,
                (
                  omega arith,
                  join p.sender_user_id.value _ w.name_bytes (
                      join p.body.value _ w.body_bytes (
                        join (mention_bytes p.mentions) _
                          (mention_bytes-IsByte p.mentions w.mention_uuids)
                          (join (reply_bytes p.reply_to) _
                            (reply_bytes-IsByte p.reply_to w.reply_data)
                            (time_bytes-IsByte p.sender_time)))),
                ),
              ),
            ))),
    )

-- The tag of a message is the first half of its identifier.
pub message_tag_data :
    (p : PostPayload)
    → IsPostData p
    → (length (message_tag p.message_id) ≡ 8) × All IsByte (message_tag p.message_id)
unfolding message_tag
message_tag_data p w = (
  omega (arith, length-take 8 p.message_id.uuid.bytes, w.message_id_uuid.size),
  All-take IsByte 8 p.message_id.uuid.bytes w.message_id_uuid.range,
)
