-- ===== src/Protocol/PostCodec/Canonical.antt =====
-- What `decode_post` accepts is the encoding of the post that it returns.
use lora_messenger.Common.{
  ℕ, ◌+◌, ◌*◌, ◌%◌, ◌^◌, ◌<◌, ◌≤◌, ◌≡◌, refl, sym, ap, ap₂, ◌∙◌, subst, none, some, ◌∷◌, ◌++◌,
  length, length-take, length-drop, get_or, take, drop, All, All-slice, arith, if◌then◌else◌,
  nat_eq,
}
use lora_messenger.Core.Result.{success}
use lora_messenger.Core.Uuid.{Uuid, IsUuid}
use lora_messenger.Model.Post.{PostPayload, PostPayloadInput}
use lora_messenger.Model.Post.Valid.{create_post-IsPost}
use lora_messenger.Model.Post.Valid.Rules.{IsPost}
use lora_messenger.Model.Post.Valid.Rules.{raw, install_uuids, reply_uuid}
use lora_messenger.Words.Network.{IsByte, write_uint, read_uint}
use lora_messenger.Protocol.Limits.{Bytes}
use lora_messenger.Protocol.PostCodec.{
  is_present, encode_post, decode_post, post_bytes, post_flags, end_offset, time_offset,
  optional_offset, read_input, has_reply, has_time, decode_signed, read_uuid, read_mentions,
  read_reply, read_time, mention_bytes, reply_bytes, time_bytes,
}
use lora_messenger.Protocol.PostCodec.Layout.{IsPostData, AllUuid, IsTimeData, size_if}
use lora_messenger.Protocol.PostCodec.Offsets.{cut, get_or_cut}
use lora_messenger.Protocol.PostCodec.Pieces.{
  Decoded, decode_post-Decoded, uuids_bytes, mention_bytes-install_uuids, mentions_cut, reply_cut,
  time_cut, read_word, mentions_read, reply_data, IsUuid-read,
}
use lora_messenger.Protocol.PostCodec.RoundTrip.{encode_post-post_bytes}

module _ (bytes : Bytes) (p : PostPayload) (w : All IsByte bytes) (d : Decoded bytes p) where
  abbrev flags : ℕ
  flags = get_or bytes 0 0

  abbrev names : ℕ
  names = get_or bytes 41 0

  abbrev texts : ℕ
  texts = get_or bytes 42 0

  abbrev mentioned : ℕ
  mentioned = get_or bytes 43 0

  same : raw p ≡ read_input bytes
  same = (create_post-IsPost (read_input bytes) p d.created).1

  -- The sizes, written out.
  offsets :
      (optional_offset bytes ≡ 44 + names + texts + mentioned * 16)
      × (time_offset bytes ≡ optional_offset bytes + size_if (has_reply flags) 16)
      × (time_offset bytes + size_if (has_time flags) 8 ≡ length bytes)
  unfolding optional_offset time_offset
  offsets = (refl, refl, unfold end_offset in d.end)

  reply_same :
      reply_uuid p.reply_to
      ≡ (if has_reply flags then some (read_uuid bytes (optional_offset bytes)) else none)
  reply_same = ap PostPayloadInput.reply_to same ∙ unfold read_input read_reply in refl

  time_same : p.sender_time ≡ (
      if has_time flags
      then some (decode_signed (read_uint (2 ^ 64) 0 (take 8 (drop (time_offset bytes) bytes))))
      else none)
  time_same = ap PostPayloadInput.sender_time same ∙ unfold read_input read_time in refl

  mentions_same : install_uuids p.mentions ≡ read_mentions mentioned bytes (44 + names + texts)
  mentions_same = ap PostPayloadInput.mentions same ∙ unfold read_input in refl

  name_same : p.sender_user_id.value ≡ take names (drop 44 bytes)
  name_same = ap PostPayloadInput.sender_user_id same ∙ unfold read_input in refl

  body_same : p.body.value ≡ take texts (drop (44 + names) bytes)
  body_same = ap PostPayloadInput.body same ∙ unfold read_input in refl

  sequence_same : p.sender_sequence ≡ read_uint (2 ^ 64) 0 (take 8 (drop 33 bytes))
  sequence_same = ap PostPayloadInput.sender_sequence same ∙ unfold read_input in refl

  message_same : p.message_id.uuid ≡ read_uuid bytes 1
  message_same = ap PostPayloadInput.message_id same ∙ unfold read_input in refl

  sender_same : p.sender_id.uuid ≡ read_uuid bytes 17
  sender_same = ap PostPayloadInput.sender_id same ∙ unfold read_input in refl

  mentions_data : AllUuid p.mentions × (length p.mentions ≡ mentioned)
  mentions_data =
      mentions_read mentioned bytes (44 + names + texts) p.mentions w (omega (arith, offsets))
        mentions_same

  reply_part :
      (is_present p.reply_to ≡ has_reply flags)
      × (reply_bytes p.reply_to ++ drop (time_offset bytes) bytes
          ≡ drop (optional_offset bytes) bytes)
  reply_part =
      let (present, at) =
        reply_cut p.reply_to (has_reply flags) bytes (optional_offset bytes) reply_same in
      (present, ap (λ (k : ℕ). reply_bytes p.reply_to ++ drop k bytes) offsets.1 ∙ at)

  time_part :
      (is_present p.sender_time ≡ has_time flags)
      × IsTimeData p.sender_time
      × (time_bytes p.sender_time ≡ drop (time_offset bytes) bytes)
  time_part =
      time_cut p.sender_time (has_time flags) bytes (time_offset bytes) w time_same offsets.2

  decoded_data : IsPostData p
  decoded_data = record {
    message_id_uuid =
        subst IsUuid (sym message_same) (IsUuid-read bytes 1 w (omega (arith, d.lower)));
    sender_id_uuid =
        subst IsUuid (sym sender_same) (IsUuid-read bytes 17 w (omega (arith, d.lower)));
    sequence_range = rw sequence_same (word 33 (omega (arith, d.lower))).0;
    name_bytes = rw name_same (All-slice IsByte names 44 bytes w);
    body_bytes = rw body_same (All-slice IsByte texts (44 + names) bytes w);
    mention_uuids = mentions_data.0;
    reply_data =
        reply_data p.reply_to (has_reply flags) bytes (optional_offset bytes) w
          (omega (arith, offsets.1, offsets.2)) reply_same;
    time_data = time_part.1;
  }
    where
      word :
          (k : ℕ)
          → k + 8 ≤ length bytes
          → (read_uint (2 ^ 64) 0 (take 8 (drop k bytes)) < 2 ^ 64)
            × (write_uint 8 (read_uint (2 ^ 64) 0 (take 8 (drop k bytes))) ≡ take 8 (drop k bytes))
      word k h =
          read_word (take 8 (drop k bytes))
            (omega (arith, length-take 8 (drop k bytes), length-drop k bytes))
            (All-slice IsByte 8 k bytes w)

  flags_same : post_flags p ≡ flags
  unfolding post_flags
  flags_same = ground (arith, d.flags, reply_part.0, time_part.0)

  name_size : length p.sender_user_id.value ≡ names
  name_size =
      ap length name_same
      ∙ omega (arith, length-take names (drop 44 bytes), length-drop 44 bytes, offsets)

  body_size : length p.body.value ≡ texts
  body_size =
      ap length body_same
      ∙ omega (
        arith,
        length-take texts (drop (44 + names) bytes),
        length-drop (44 + names) bytes,
        offsets,
      )

  -- From the mentions on, the encoding is the rest of the bytes; then from the name, and so on.
  join_mentions :
      mention_bytes p.mentions ++ (reply_bytes p.reply_to ++ time_bytes p.sender_time)
      ≡ drop (44 + names + texts) bytes
  join_mentions =
      ap₂ ◌++◌ (mention_bytes-install_uuids p.mentions ∙ ap uuids_bytes mentions_same)
        (ap (◌++◌ (reply_bytes p.reply_to)) time_part.2 ∙ reply_part.1)
      ∙ mentions_cut mentioned bytes (44 + names + texts) (optional_offset bytes) offsets.0

  join_name :
      p.sender_user_id.value
        ++ (p.body.value
            ++ (mention_bytes p.mentions ++ (reply_bytes p.reply_to ++ time_bytes p.sender_time)))
      ≡ drop 44 bytes
  join_name =
      ap₂ ◌++◌ name_same (ap₂ ◌++◌ body_same join_mentions ∙ cut bytes (44 + names) texts _ refl)
      ∙ cut bytes 44 names _ refl

  join_counts :
      (length p.sender_user_id.value % 256)
        ∷ (length p.body.value % 256)
        ∷ (length p.mentions % 256)
        ∷ drop 44 bytes
      ≡ drop 41 bytes
  join_counts =
      rw (name_size, body_size, mentions_data.1)
        (rw
          (
            small names (omega (arith, d.name_le)),
            small texts (omega (arith, d.body_le)),
            small mentioned (omega (arith, d.mentions_le)),
          )
          (ap (◌∷◌ names) (
              ap (◌∷◌ texts) (get_or_cut bytes 43 (omega (arith, d.lower)))
              ∙ get_or_cut bytes 42 (omega (arith, d.lower)))
            ∙ get_or_cut bytes 41 (omega (arith, d.lower))))
    where
      small : (n : ℕ) → n < 256 → n % 256 ≡ n
      small n h = omega arith

  join_sequence : write_uint 8 p.sender_sequence ++ drop 41 bytes ≡ drop 33 bytes
  join_sequence =
      ap (λ (xs : Bytes). xs ++ drop 41 bytes)
        (ap (write_uint 8) sequence_same
          ∙ (read_word (take 8 (drop 33 bytes))
              (omega (arith, d.lower, length-take 8 (drop 33 bytes), length-drop 33 bytes))
              (All-slice IsByte 8 33 bytes w)).1)
      ∙ cut bytes 33 8 41 refl

  join_ids : p.message_id.uuid.bytes ++ (p.sender_id.uuid.bytes ++ drop 33 bytes) ≡ drop 1 bytes
  unfolding read_uuid
  join_ids =
      ap₂ ◌++◌ (ap Uuid.bytes message_same)
        (ap (λ (u : Uuid). u.bytes ++ drop 33 bytes) sender_same ∙ cut bytes 17 16 33 refl)
      ∙ cut bytes 1 16 17 refl

  post_bytes-decoded : post_bytes p ≡ bytes
  unfolding post_bytes
  post_bytes-decoded =
      ap₂ ◌∷◌ flags_same (
        ap (λ (t : Bytes). p.message_id.uuid.bytes ++ (p.sender_id.uuid.bytes ++ t))
          (ap (◌++◌ (write_uint 8 p.sender_sequence)) (
              ap
                (λ (t : Bytes).
                  (length p.sender_user_id.value % 256)
                  ∷ (length p.body.value % 256)
                  ∷ (length p.mentions % 256)
                  ∷ t)
                join_name
              ∙ join_counts)
            ∙ join_sequence)
        ∙ join_ids)
      ∙ get_or_cut bytes 0 (omega (arith, d.lower))

-- Any bytes that `decode_post` accepts are what `encode_post` writes for the post read, and that post
-- keeps every rule of a post.
pub encode_post-decode_post :
    (bytes : Bytes) (p : PostPayload)
    → All IsByte bytes
    → decode_post (some bytes) ≡ success p
    → (encode_post p ≡ success bytes) × IsPost p × IsPostData p
encode_post-decode_post bytes p w e =
    let d = decode_post-Decoded bytes p e in
    let post = (create_post-IsPost (read_input bytes) p d.created).0 in
    let typed = decoded_data bytes p w d in
    (encode_post-post_bytes p post typed ∙ ap success (post_bytes-decoded bytes p w d), post, typed)
