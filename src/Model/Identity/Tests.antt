-- ===== src/Model/Identity/Tests.antt =====
-- An identity on which `identity.cpp` is run.
use lora_messenger.Common.{◌≡◌, refl, false}
use lora_messenger.Core.Uuid.Tests.{first_id}
use lora_messenger.Core.Text.Tests.{yuta}
use lora_messenger.Model.Identity.{Identity, commit_sender_sequence, next_sender_sequence}

abbrev device : Identity
device = record {
  install_id = record { uuid = first_id };
  user_id = record { value = yuta };
  last_issued_sender_sequence = 41;
}

commits_next : (commit_sender_sequence device 42).1.last_issued_sender_sequence ≡ 42
unfolding commit_sender_sequence next_sender_sequence
commits_next = refl

refuses_other : commit_sender_sequence device 43 ≡ (false, device)
unfolding commit_sender_sequence next_sender_sequence
refuses_other = refl
