-- ===== src/Protocol/PostCodec/Fields.antt =====
-- The fields that `decode_post` reads from an encoded post.
use lora_messenger.Common.{
  ℕ, ◌+◌, ◌*◌, ◌%◌, ◌^◌, ◌≤◌, ◌≡◌, refl, sym, ap, ap₂, ◌∙◌, Bool, Option, none, some, List, [], ◌∷◌,
  ◌++◌, length, append_assoc, append-nil, get_or, take, drop, arith, nat_eq,
}
use lora_messenger.Core.Uuid.{InstallId, MessageId}
use lora_messenger.Model.Post.{ℤ, PostPayload}
use lora_messenger.Model.Post.Valid.Rules.{install_uuids, reply_uuid, raw}
use lora_messenger.Words.Network.{write_uint, read_uint, read_uint-write_uint, length-write_uint}
use lora_messenger.Protocol.Limits.{Bytes}
use lora_messenger.Protocol.PostCodec.{
  encode_signed, is_present, mention_bytes, reply_bytes, time_bytes, post_flags, post_bytes,
  read_uuid, read_mentions, has_reply, has_time, read_reply, read_time, optional_offset,
  time_offset, read_input,
}
use lora_messenger.Protocol.PostCodec.Offsets.{take_field, drop_field, get_or-drop, drop-drop}
use lora_messenger.Protocol.PostCodec.Layout.{
  IsPostData, AllUuid, IsReplyData, IsTimeData, decode_signed-encode_signed, encode_signed-lt,
  length-mention_bytes, length-reply_bytes, size_if, flags_of,
}

read_mentions-mention_bytes :
    (ms : List InstallId) (bytes rest : Bytes) (offset : ℕ)
    → AllUuid ms
    → drop offset bytes ≡ mention_bytes ms ++ rest
    → read_mentions (length ms) bytes offset ≡ install_uuids ms
unfolding read_mentions mention_bytes read_uuid
read_mentions-mention_bytes [] bytes rest offset w e = refl
read_mentions-mention_bytes (m ∷ ms) bytes rest offset w e =
    let at = e ∙ append_assoc m.uuid.bytes (mention_bytes ms) rest in
    let first : read_uuid bytes offset ≡ m.uuid =
      λ i. record { bytes = take_field bytes m.uuid.bytes _ offset 16 at w.0.size i } in
    let behind = drop_field bytes m.uuid.bytes _ offset 16 at w.0.size (offset + 16) refl in
    ap₂ ◌∷◌ first (read_mentions-mention_bytes ms bytes rest (offset + 16) w.1 behind)

read_reply-reply_bytes :
    (r : Option MessageId) (flags : ℕ) (bytes rest : Bytes) (offset : ℕ)
    → IsReplyData r
    → has_reply flags ≡ is_present r
    → drop offset bytes ≡ reply_bytes r ++ rest
    → read_reply flags bytes offset ≡ reply_uuid r
unfolding read_reply reply_bytes read_uuid
read_reply-reply_bytes none flags bytes rest offset w f e = rw f
read_reply-reply_bytes (some r) flags bytes rest offset w f e =
    rw f (λ i. some (record { bytes = take_field bytes r.uuid.bytes rest offset 16 e w.size i }))

read_time-time_bytes :
    (t : Option ℤ) (flags : ℕ) (bytes : Bytes) (offset : ℕ)
    → IsTimeData t
    → has_time flags ≡ is_present t
    → drop offset bytes ≡ time_bytes t
    → read_time flags bytes offset ≡ t
unfolding read_time time_bytes
read_time-time_bytes none flags bytes offset w f e = rw f
read_time-time_bytes (some t) flags bytes offset w f e =
    let word = encode_signed t in
    let whole =
      take_field bytes (write_uint 8 word) [] offset 8 (e ∙ sym (append-nil _))
        (length-write_uint 8 word) in
    rw (
      f,
      whole,
      read_uint-write_uint 8 (2 ^ 64) word (encode_signed-lt t w) (encode_signed-lt t w),
      decode_signed-encode_signed t w,
    )

-- The rest of an encoded post from each of its fields on.
module _ (p : PostPayload) where
  abbrev from_reply : Bytes
  from_reply = reply_bytes p.reply_to ++ time_bytes p.sender_time

  abbrev from_mentions : Bytes
  from_mentions = mention_bytes p.mentions ++ from_reply

  abbrev from_body : Bytes
  from_body = p.body.value ++ from_mentions

  abbrev from_name : Bytes
  from_name = p.sender_user_id.value ++ from_body

  abbrev from_counts : Bytes
  from_counts =
      (length p.sender_user_id.value % 256)
      ∷ (length p.body.value % 256)
      ∷ (length p.mentions % 256)
      ∷ from_name

  abbrev from_sequence : Bytes
  from_sequence = write_uint 8 p.sender_sequence ++ from_counts

  abbrev from_sender : Bytes
  from_sender = p.sender_id.uuid.bytes ++ from_sequence

module _ (p : PostPayload) (w : IsPostData p) (name_le : length p.sender_user_id.value ≤ 24)
    (body_le : length p.body.value ≤ 160) (mentions_le : length p.mentions ≤ 4) where
  at_message : drop 1 (post_bytes p) ≡ p.message_id.uuid.bytes ++ from_sender p
  unfolding post_bytes
  at_message = refl

  at_sender : drop 17 (post_bytes p) ≡ from_sender p
  at_sender = drop_field (post_bytes p) _ _ 1 16 at_message w.message_id_uuid.size 17 refl

  at_sequence : drop 33 (post_bytes p) ≡ from_sequence p
  at_sequence = drop_field (post_bytes p) _ _ 17 16 at_sender w.sender_id_uuid.size 33 refl

  at_counts : drop 41 (post_bytes p) ≡ from_counts p
  at_counts =
      drop_field (post_bytes p) _ _ 33 8 at_sequence (length-write_uint 8 p.sender_sequence) 41 refl

  pub flags_read : get_or (post_bytes p) 0 0 ≡ post_flags p
  unfolding post_bytes
  flags_read = refl

  pub count_read :
      (get_or (post_bytes p) 41 0 ≡ length p.sender_user_id.value)
      × (get_or (post_bytes p) 42 0 ≡ length p.body.value)
      × (get_or (post_bytes p) 43 0 ≡ length p.mentions)
  count_read =
      let after = λ (n k : ℕ) (e : k ≡ 41 + n).
        sym (drop-drop 41 n k (post_bytes p) e) ∙ ap (drop n) at_counts in
      let head = λ (bs : Bytes). get_or bs 0 0 in
      (
        get_or-drop 41 (post_bytes p) 0 ∙ ap head at_counts ∙ omega arith,
        get_or-drop 42 (post_bytes p) 0 ∙ ap head (after 1 42 refl) ∙ omega arith,
        get_or-drop 43 (post_bytes p) 0 ∙ ap head (after 2 43 refl) ∙ omega arith,
      )

  at_name : drop 44 (post_bytes p) ≡ from_name p
  at_name = sym (drop-drop 41 3 44 (post_bytes p) refl) ∙ ap (drop 3) at_counts

  at_body : drop (44 + length p.sender_user_id.value) (post_bytes p) ≡ from_body p
  at_body = drop_field (post_bytes p) _ _ 44 _ at_name refl _ refl

  at_mentions :
      drop (44 + length p.sender_user_id.value + length p.body.value) (post_bytes p)
      ≡ from_mentions p
  at_mentions =
      drop_field (post_bytes p) _ _ (44 + length p.sender_user_id.value) _ at_body refl _ refl

  optional_read :
      optional_offset (post_bytes p)
      ≡ 44 + length p.sender_user_id.value + length p.body.value + length p.mentions * 16
  unfolding optional_offset
  optional_read = omega (arith, count_read.0, count_read.1, count_read.2)

  at_reply : drop (optional_offset (post_bytes p)) (post_bytes p) ≡ from_reply p
  at_reply =
      drop_field (post_bytes p) _ _ (44 + length p.sender_user_id.value + length p.body.value)
        (length p.mentions * 16) at_mentions (length-mention_bytes p.mentions w.mention_uuids) _
        optional_read

  at_time : drop (time_offset (post_bytes p)) (post_bytes p) ≡ time_bytes p.sender_time
  unfolding time_offset
  at_time =
      drop_field (post_bytes p) _ _ (optional_offset (post_bytes p))
        (size_if (is_present p.reply_to) 16) at_reply (length-reply_bytes p.reply_to w.reply_data) _
        (ap (λ (b : Bool). optional_offset (post_bytes p) + size_if b 16)
          (ap has_reply flags_read ∙ (flags_of p).1))

  -- The input that `decode_post` reads from an encoded post is the post's own fields.
  pub read_input-post_bytes : read_input (post_bytes p) ≡ raw p
  unfolding read_input read_uuid
  read_input-post_bytes = λ i. record {
    message_id = record {
      bytes = take_field (post_bytes p) _ _ 1 16 at_message w.message_id_uuid.size i;
    };
    sender_id = record {
      bytes = take_field (post_bytes p) _ _ 17 16 at_sender w.sender_id_uuid.size i;
    };
    sender_sequence = sequence_read i;
    sender_user_id = name_read i;
    body = body_read i;
    mentions = mentions_read i;
    reply_to = reply_read i;
    sender_time = time_read i;
  }
    where
      sequence_read : read_uint (2 ^ 64) 0 (take 8 (drop 33 (post_bytes p))) ≡ p.sender_sequence
      sequence_read =
          ap (read_uint (2 ^ 64) 0)
            (take_field (post_bytes p) _ _ 33 8 at_sequence (length-write_uint 8 p.sender_sequence))
          ∙ read_uint-write_uint 8 (2 ^ 64) p.sender_sequence w.sequence_range w.sequence_range

      name_read :
          take (get_or (post_bytes p) 41 0) (drop 44 (post_bytes p)) ≡ p.sender_user_id.value
      name_read = rw count_read.0 (take_field (post_bytes p) _ _ 44 _ at_name refl)

      body_read :
          take (get_or (post_bytes p) 42 0) (drop (44 + get_or (post_bytes p) 41 0) (post_bytes p))
          ≡ p.body.value
      body_read = rw (count_read.0, count_read.1) (take_field (post_bytes p) _ _ _ _ at_body refl)

      mentions_read :
          read_mentions
            (get_or (post_bytes p) 43 0)
            (post_bytes p)
            (44 + get_or (post_bytes p) 41 0 + get_or (post_bytes p) 42 0)
          ≡ install_uuids p.mentions
      mentions_read =
          rw (count_read.0, count_read.1, count_read.2)
            (read_mentions-mention_bytes p.mentions (post_bytes p) (from_reply p) _ w.mention_uuids
              at_mentions)

      reply_read :
          read_reply (get_or (post_bytes p) 0 0) (post_bytes p) (optional_offset (post_bytes p))
          ≡ reply_uuid p.reply_to
      reply_read =
          read_reply-reply_bytes p.reply_to (get_or (post_bytes p) 0 0) (post_bytes p) _ _
            w.reply_data (ap has_reply flags_read ∙ (flags_of p).1) at_reply

      time_read :
          read_time (get_or (post_bytes p) 0 0) (post_bytes p) (time_offset (post_bytes p))
          ≡ p.sender_time
      time_read =
          read_time-time_bytes p.sender_time (get_or (post_bytes p) 0 0) (post_bytes p) _
            w.time_data (ap has_time flags_read ∙ (flags_of p).2) at_time
