-- ===== src/Protocol/PostCodec/RoundTrip.antt =====
-- `encode_post` and `decode_post` are inverse to one another.
use lora_messenger.Common.{◌≤◌, ◌≡◌, refl, ◌∙◌, true, false, some, length, get_or, arith, nat_eq}
use lora_messenger.Core.Result.{success, or_fail}
use lora_messenger.Core.Text.Users.{validate_text-length}
use lora_messenger.Model.Post.{PostPayload, create_post}
use lora_messenger.Model.Post.Valid.{create_post_again}
use lora_messenger.Model.Post.Valid.Rules.{IsPost}
use lora_messenger.Protocol.Limits.{Bytes}
use lora_messenger.Protocol.PostCodec.{
  invalid_post, encode_post, decode_post, post_bytes, post_flags, encoded_size, expected_size,
  end_offset, time_offset, optional_offset, read_input,
}
use lora_messenger.Protocol.PostCodec.Layout.{IsPostData, length-post_bytes, flags_of}
use lora_messenger.Protocol.PostCodec.Fields.{count_read, flags_read, read_input-post_bytes}

-- A post's encoding has from 46 to 316 bytes.
pub encoded_size_range :
    (p : PostPayload) → IsPost p → (46 ≤ encoded_size p) × (encoded_size p ≤ 316)
unfolding encoded_size
encoded_size_range p v = ground (
  arith,
  v.mentions_le,
  validate_text-length p.sender_user_id.value 24 true v.name,
  validate_text-length p.body.value 160 false v.text,
)

-- Every valid post is encoded, in 46 to 316 bytes.
pub encode_post-post_bytes :
    (p : PostPayload) → IsPost p → IsPostData p → encode_post p ≡ success (post_bytes p)
unfolding encode_post
encode_post-post_bytes p v w = ground (
  arith,
  v.mentions_le,
  validate_text-length p.sender_user_id.value 24 true v.name,
  validate_text-length p.body.value 160 false v.text,
  encoded_size_range p v,
  length-post_bytes p w,
)

pub encode_post-eq_success :
    (p : PostPayload) {bytes : Bytes} → encode_post p ≡ success bytes → post_bytes p ≡ bytes
unfolding encode_post
encode_post-eq_success p e = ground arith

module _ (p : PostPayload) (v : IsPost p) (w : IsPostData p) where
  name_le : length p.sender_user_id.value ≤ 24
  name_le = (validate_text-length p.sender_user_id.value 24 true v.name).1

  body_le : length p.body.value ≤ 160
  body_le = (validate_text-length p.body.value 160 false v.text).1

  counts :
      (get_or (post_bytes p) 41 0 ≡ length p.sender_user_id.value)
      × (get_or (post_bytes p) 42 0 ≡ length p.body.value)
      × (get_or (post_bytes p) 43 0 ≡ length p.mentions)
  counts = count_read p w name_le body_le v.mentions_le

  flag : get_or (post_bytes p) 0 0 ≡ post_flags p
  flag = flags_read p w name_le body_le v.mentions_le

  expected : expected_size (post_bytes p) ≡ encoded_size p
  unfolding expected_size encoded_size
  expected = rw (counts.0, counts.1, counts.2, flag, (flags_of p).1, (flags_of p).2)

  ended : end_offset (post_bytes p) ≡ expected_size (post_bytes p)
  unfolding expected_size end_offset time_offset optional_offset
  ended = refl

  decoded :
      decode_post (some (post_bytes p))
      ≡ or_fail (create_post (read_input (post_bytes p))) invalid_post
  unfolding decode_post
  decoded =
      let size = length-post_bytes p w in
      ground (
        arith,
        size,
        expected,
        ended,
        flag,
        flags_of p,
        counts,
        name_le,
        body_le,
        v.mentions_le,
        encoded_size_range p v,
      )

-- A valid post can be encoded, in 46 to 316 bytes, and `decode_post` reads it back from them.
pub decode_post-encode_post :
    (p : PostPayload)
    → IsPost p
    → IsPostData p
    → (bytes : Bytes) × (encode_post p ≡ success bytes)
      × (decode_post (some bytes) ≡ success p)
      × (46 ≤ length bytes)
      × (length bytes ≤ 316)
decode_post-encode_post p v w =
    let size = length-post_bytes p w in
    let range = encoded_size_range p v in
    (
      post_bytes p,
      encode_post-post_bytes p v w,
      decoded p v w
          ∙ rw (
            read_input-post_bytes p w (name_le p v w) (body_le p v w) v.mentions_le,
            create_post_again p v,
          ),
      omega arith,
      omega arith,
    )
