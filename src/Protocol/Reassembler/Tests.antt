-- ===== src/Protocol/Reassembler/Tests.antt =====
-- A post whose fragments `reassembler.cpp` is run on.
use lora_messenger.Common.{
  ℕ, ◌+◌, ◌<◌, ◌≤◌, ◌≡◌, refl, true, false, some, List, [], ◌∷◌, nat_eq, length, arith, All,
  replicate, sym, ◌∙◌, ap,
}
use lora_messenger.Core.Result.{success}
use lora_messenger.Model.Post.{contains}
use lora_messenger.Model.Post.Tests.{sample, sample-IsPost}
use lora_messenger.Protocol.Limits.{Bytes, is_supported_mtu, frame_payload_capacity}
use lora_messenger.Protocol.FrameCodec.{DataFrame, expected_count}
use lora_messenger.Protocol.PostCodec.{encoded_size, post_bytes}
use lora_messenger.Protocol.PostCodec.Layout.{length-post_bytes}
use lora_messenger.Protocol.PostCodec.RoundTrip.{encode_post-eq_success}
use lora_messenger.Protocol.PostCodec.Tests.{sample-IsPostData}
use lora_messenger.Protocol.Fragmenter.Tests.{smallest_mtu}
use lora_messenger.Protocol.Fragmenter.Correct.{fragment_post_complete}
use lora_messenger.Protocol.Reassembler.Slots.{
  empty_slot, find_slot, active_count, any_key, saturating_deadline,
}
use lora_messenger.Protocol.Reassembler.{accept}
use lora_messenger.Protocol.Reassembler.State.{
  ReassemblyResult, complete, fragment_offset, create_reassembler, has_bad_fields, has_bad_size,
}
use lora_messenger.Protocol.Reassembler.Complete.{Arrival, indices, feed, InTime, first_deadline}
use lora_messenger.Protocol.Reassembler.Calls.{
  create_reassembler-IsReassembler, accept-IsReassembler,
}
use lora_messenger.Protocol.Reassembler.Correct.{
  IsSent, IsAwaiting, frames_of, fragment_total, accept-complete, fragment-in_bounds,
}
use lora_messenger.Protocol.Reassembler.Authentic.{IsAuthentic, accept-IsAuthentic}
use lora_messenger.Protocol.Reassembler.Invariant.{IsReassembler, empty_slot-IsSlot}

abbrev arrivals : List Arrival
arrivals = (3, 10) ∷ (0, 20) ∷ (3, 30) ∷ (1, 40) ∷ (4, 50) ∷ []

abbrev bytes : Bytes
bytes = post_bytes sample

abbrev sent : List Bytes
sent = (fragment_post_complete sample 48 sample-IsPost sample-IsPostData smallest_mtu).1

sample-IsSent : IsSent sample 48 bytes sent
sample-IsSent =
    let (logical, _, _, encoded, fragmented, _, _, _, _, _) =
      fragment_post_complete sample 48 sample-IsPost sample-IsPostData smallest_mtu in
    record {
      valid = sample-IsPost;
      is_data = sample-IsPostData;
      supported = smallest_mtu;
      encoded = encoded ∙ ap success (sym (encode_post-eq_success sample encoded));
      fragmented = fragmented;
    }

size : length bytes ≡ 92
unfolding encoded_size
size = length-post_bytes sample sample-IsPostData

total : fragment_total 48 bytes ≡ 5
unfolding frame_payload_capacity expected_count
total = rw size refl

sample-IsAwaiting : IsAwaiting sample 48 (create_reassembler 48)
unfolding create_reassembler find_slot active_count any_key empty_slot
sample-IsAwaiting = record {
  well_formed = create_reassembler-IsReassembler 48;
  mtu_same = refl;
  no_slot = refl;
  room = omega arith;
  unquarantined = refl;
}

all_arrive : (j : ℕ) → j < fragment_total 48 bytes → contains (2 ∷ indices arrivals) j ≡ true
unfolding contains
all_arrive j h = let few : j < 5 = rw total at h in ground (arith, few)

some_missing : contains (indices arrivals) 2 ≡ false
unfolding contains
some_missing = refl

in_time : All (InTime (fragment_total 48 bytes) (first_deadline arrivals 59)) arrivals
unfolding saturating_deadline
in_time = rw total (
  (omega arith, omega arith),
  (
    (omega arith, omega arith),
    ((omega arith, omega arith), ((omega arith, omega arith), ((omega arith, omega arith), tt))),
  ),
)

last_in_time : 59 < first_deadline arrivals 59
unfolding saturating_deadline
last_in_time = omega arith

accept-complete_example :
    (accept
      (feed (frames_of sample 48 bytes) (create_reassembler 48) arrivals)
      (frames_of sample 48 bytes 2)
      59).0
    ≡ record {
      status = complete;
      completed = some (record { post = sample; canonical_post = bytes; canonical_frames = sent });
    }
accept-complete_example =
    accept-complete sample 48 bytes sent (create_reassembler 48) arrivals 2 59 sample-IsSent
      sample-IsAwaiting in_time (omega (arith, total)) last_in_time some_missing all_arrive

accept-IsAuthentic_example :
    IsAuthentic
      (frames_of sample 48 bytes 2).tag
      (frames_of sample 48 bytes 2).sender_sequence
      (record { post = sample; canonical_post = bytes; canonical_frames = sent })
accept-IsAuthentic_example =
    accept-IsAuthentic (feed (frames_of sample 48 bytes) (create_reassembler 48) arrivals)
      (frames_of sample 48 bytes 2) 59
      (record { post = sample; canonical_post = bytes; canonical_frames = sent })
      (ap (λ (result : ReassemblyResult). result.completed) accept-complete_example)

accept-IsReassembler_example :
    IsReassembler (accept (create_reassembler 48) (frames_of sample 48 bytes 2) 59).1
accept-IsReassembler_example =
    accept-IsReassembler (create_reassembler 48) (frames_of sample 48 bytes 2) 59
      (create_reassembler-IsReassembler 48)

abbrev last_fragment : DataFrame
last_fragment = record {
  tag = replicate 8 0;
  sender_sequence = 7;
  fragment_index = 2;
  fragment_count = 3;
  total_length = 46;
  payload = replicate 6 9;
}

last_fields : has_bad_fields (create_reassembler 48) last_fragment ≡ false
unfolding has_bad_fields create_reassembler is_supported_mtu
last_fields = refl

last_size : has_bad_size (create_reassembler 48) last_fragment ≡ false
unfolding has_bad_size create_reassembler
last_size = refl

fragment-in_bounds_example :
    (fragment_offset (create_reassembler 48) 2 + 6 ≤ length empty_slot.bytes)
    × (fragment_offset (create_reassembler 48) 2 + 6 ≤ 46)
    × (2 < length empty_slot.fragment_lengths)
    × (2 < 16)
fragment-in_bounds_example =
    fragment-in_bounds (create_reassembler 48) empty_slot last_fragment empty_slot-IsSlot
      last_fields last_size
