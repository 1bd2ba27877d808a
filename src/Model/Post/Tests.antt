-- ===== src/Model/Post/Tests.antt =====
-- A post on which `PostPayload::create` and the codecs are run.
use lora_messenger.Common.{◌≡◌, refl, some, [], ◌∷◌, arith}
use lora_messenger.Core.Text.Tests.{yuta, yuta-name, yuta-body}
use lora_messenger.Core.Uuid.Tests.{first_id, second_id, first_id-v4, second_id-v4}
use lora_messenger.Model.Post.{PostPayload, negsuc, contains}
use lora_messenger.Common.Tests.{list_beq}
use lora_messenger.Model.Post.Valid.{create_post-IsPost, create_post_again}
use lora_messenger.Model.Post.Valid.Rules.{IsPost}
use lora_messenger.Model.Post.Valid.Rules.{raw}

abbrev pub sample : PostPayload
sample = record {
  message_id = record { uuid = first_id };
  sender_id = record { uuid = second_id };
  sender_sequence = 7;
  sender_user_id = record { value = yuta };
  body = record { value = yuta };
  mentions = record { uuid = first_id } ∷ [];
  reply_to = some (record { uuid = second_id });
  sender_time = some (negsuc 4);
}

pub sample-IsPost : IsPost sample
unfolding contains list_beq
sample-IsPost = record {
  message_id_v4 = first_id-v4;
  sender_id_v4 = second_id-v4;
  sequence_pos = ground arith;
  name = yuta-name;
  text = yuta-body;
  mentions_le = ground arith;
  mentions_v4 = (first_id-v4, tt);
  mentions_distinct = (refl, tt);
  reply = (second_id-v4, refl);
}

create_post-IsPost_example : IsPost sample × (raw sample ≡ raw sample)
create_post-IsPost_example =
    create_post-IsPost (raw sample) sample (create_post_again sample sample-IsPost)
