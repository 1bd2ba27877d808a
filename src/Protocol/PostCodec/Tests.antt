-- ===== src/Protocol/PostCodec/Tests.antt =====
-- A post on which `post_codec.cpp` is run.
use lora_messenger.Common.{◌≡◌, ◌≤◌, some, length, arith}
use lora_messenger.Core.Result.{success}
use lora_messenger.Core.Uuid.Tests.{first_id-IsUuid, second_id-IsUuid}
use lora_messenger.Core.Text.Tests.{yuta-bytes}
use lora_messenger.Model.Post.Tests.{sample, sample-IsPost}
use lora_messenger.Model.Post.Valid.Rules.{IsPost}
use lora_messenger.Protocol.Limits.{Bytes}
use lora_messenger.Protocol.PostCodec.{encode_post, decode_post, post_bytes}
use lora_messenger.Protocol.PostCodec.Layout.{post_bytes-IsByte, IsPostData}
use lora_messenger.Protocol.PostCodec.RoundTrip.{encode_post-eq_success, decode_post-encode_post}
use lora_messenger.Protocol.PostCodec.Canonical.{encode_post-decode_post}

pub sample-IsPostData : IsPostData sample
sample-IsPostData = record {
  message_id_uuid = first_id-IsUuid;
  sender_id_uuid = second_id-IsUuid;
  sequence_range = ground arith;
  name_bytes = yuta-bytes;
  body_bytes = yuta-bytes;
  mention_uuids = (first_id-IsUuid, tt);
  reply_data = second_id-IsUuid;
  time_data = ground arith;
}

decode_post-encode_post_example :
    (bytes : Bytes) × (encode_post sample ≡ success bytes)
    × (decode_post (some bytes) ≡ success sample)
    × (46 ≤ length bytes)
    × (length bytes ≤ 316)
decode_post-encode_post_example = decode_post-encode_post sample sample-IsPost sample-IsPostData

pub decoded : decode_post (some (post_bytes sample)) ≡ success sample
decoded =
    let (bytes, e, d, _, _) = decode_post-encode_post sample sample-IsPost sample-IsPostData in
    rw (encode_post-eq_success sample e) d

encode_post-decode_post_example :
    (encode_post sample ≡ success (post_bytes sample)) × IsPost sample × IsPostData sample
encode_post-decode_post_example =
    encode_post-decode_post (post_bytes sample) sample (post_bytes-IsByte sample sample-IsPostData)
      decoded
