-- ===== src/Protocol/DedupeWindow/Tests.antt =====
-- Windows on which `dedupe_window.cpp` is run.
use lora_messenger.Common.{◌≡◌, refl, true, none, some, [], ◌∷◌, ==_refl, arith}
use lora_messenger.Common.Tests.{list_beq}
use lora_messenger.Core.Result.{success}
use lora_messenger.Core.Uuid.{message_id_eq}
use lora_messenger.Model.Post.{contains, post_eq}
use lora_messenger.Model.Post.Tests.{sample, sample-IsPost}
use lora_messenger.Protocol.Limits.{Bytes}
use lora_messenger.Protocol.PostCodec.{encode_post, post_bytes}
use lora_messenger.Protocol.PostCodec.Tests.{sample-IsPostData, decoded}
use lora_messenger.Protocol.PostCodec.RoundTrip.{encode_post-post_bytes}
use lora_messenger.Protocol.DedupeWindow.{
  SeenMessageRecord, MessageDedupeWindow, is_protected, find_record, classify, remember,
  remember_new, duplicate,
}
use lora_messenger.Protocol.DedupeWindow.Invariant.{IsWindow}
use lora_messenger.Protocol.DedupeWindow.Remembers.{
  remember-IsWindow, classify-remember, remember-keeps,
}

abbrev wire : Bytes
wire = post_bytes sample

abbrev seen : SeenMessageRecord
seen = record { message_id = sample.message_id; seen_order = 3; encoded_post = wire }

-- Windows for one message: an empty one, and one with `sample` in it.
abbrev empty : MessageDedupeWindow
empty = record { capacity = 1; last_seen_order = 0; records = [] }

abbrev filled : MessageDedupeWindow
filled = record { capacity = 1; last_seen_order = 3; records = seen ∷ [] }

encoded : encode_post sample ≡ success wire
encoded = encode_post-post_bytes sample sample-IsPost sample-IsPostData

empty-IsWindow : IsWindow empty
empty-IsWindow = record {
  capacity_pos = ground arith;
  size_le = ground arith;
  order_range = ground arith;
  ordered = ground arith;
  distinct = tt;
  canonical = tt;
}

remembered : (remember empty sample wire []).0 ≡ none
unfolding remember classify remember_new find_record
remembered = rw (decoded, ==_refl sample, encoded, ==_refl wire) refl

sample_protected : is_protected seen.message_id (sample.message_id ∷ []) ≡ true
unfolding is_protected contains list_beq
sample_protected = refl

sample_there : find_record filled.records sample.message_id ≡ some seen
unfolding find_record list_beq
sample_there = refl

remember-IsWindow_example : IsWindow (remember empty sample wire []).1
remember-IsWindow_example = remember-IsWindow empty sample wire [] empty-IsWindow

classify-remember_example :
    classify (remember empty sample wire []).1 sample.message_id wire ≡ duplicate
classify-remember_example = classify-remember empty sample wire [] remembered

remember-keeps_example :
    find_record (remember filled sample wire (sample.message_id ∷ [])).1.records sample.message_id
    ≡ some seen
remember-keeps_example =
    remember-keeps filled sample wire (sample.message_id ∷ []) sample.message_id seen
      sample_protected sample_there
