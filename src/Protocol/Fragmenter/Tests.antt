-- ===== src/Protocol/Fragmenter/Tests.antt =====
-- A post on which `fragmenter.cpp` is run.
use lora_messenger.Common.{◌≡◌, ◌<◌, ◌≤◌, refl, true, List, length}
use lora_messenger.Core.Result.{success}
use lora_messenger.Model.Post.Tests.{sample, sample-IsPost}
use lora_messenger.Protocol.Limits.{Bytes, is_supported_mtu}
use lora_messenger.Protocol.FrameCodec.{DataFrame}
use lora_messenger.Protocol.PostCodec.{encode_post, message_tag}
use lora_messenger.Protocol.PostCodec.Tests.{sample-IsPostData}
use lora_messenger.Protocol.Fragmenter.{fragment_post}
use lora_messenger.Protocol.Fragmenter.Frames.{Received, Numbered, payloads}
use lora_messenger.Protocol.Fragmenter.Correct.{fragment_post_complete}

pub smallest_mtu : is_supported_mtu 48 ≡ true
unfolding is_supported_mtu
smallest_mtu = refl

fragment_post_complete_example :
    (bytes : Bytes) × (sent : List Bytes) × (frames : List DataFrame) × (encode_post sample
      ≡ success bytes)
    × (fragment_post sample 48 ≡ success sent)
    × Received 48 sent frames
    × Numbered
        (message_tag sample.message_id)
        sample.sender_sequence
        (length bytes)
        (length sent)
        0
        frames
    × (payloads frames ≡ bytes)
    × (0 < length sent)
    × (length sent ≤ 16)
fragment_post_complete_example =
    fragment_post_complete sample 48 sample-IsPost sample-IsPostData smallest_mtu
