-- ===== src/Protocol/InboundQueue/Frames.antt =====
-- src/protocol/reassembler.h and reassembler.cpp, the class InboundFrameQueue: its frames, `enqueue` and
-- `recently_committed`.
use lora_messenger.Common.{
  ℕ, ◌+◌, ◌%◌, ◌^◌, max, Bool, true, false, ◌||◌, Option, none, some, List, [], ◌∷◌, ◌++◌, length,
  ltb, leb, ◌==◌, nat_eq, list_eq, if◌then◌else◌,
}
use lora_messenger.Protocol.Limits.{Bytes, frame_header_bytes, maximum_transport_mtu}
use lora_messenger.Protocol.Reassembler.Slots.{deadline_reached, active_count}
use lora_messenger.Protocol.Reassembler.State.{
  Reassembler, ReassemblyStatus, CompletedPost, create_reassembler,
}

abbrev pub maximum_inbound_frames : ℕ
maximum_inbound_frames = 64

abbrev pub maximum_recent_frames : ℕ
maximum_recent_frames = 128

pub data IngressEnqueueStatus : Type 0 where
  enqueue_accepted enqueue_full enqueue_invalid enqueue_closed : IngressEnqueueStatus

pub data IngressProcessStatus : Type 0 where
  queue_empty stale malformed recent_duplicate queue_closed : IngressProcessStatus
  reassembly : ReassemblyStatus → IngressProcessStatus

pub record IngressProcessResult : Type 0 where
  pub status : IngressProcessStatus
  pub completed : Option CompletedPost

pub record IngressMetrics : Type 0 where
  pub queued_frames : ℕ
  pub queue_high_water : ℕ
  pub active_reassemblies : ℕ
  pub reassembly_high_water : ℕ
  pub malformed_frames : ℕ
  pub stale_frames : ℕ
  pub duplicate_frames : ℕ
  pub capacity_rejections : ℕ
  pub expired_reassemblies : ℕ
  pub completed_posts : ℕ

pub record QueuedFrame : Type 0 where
  pub datagram : Bytes
  pub received_tick : ℕ

pub record RecentFrame : Type 0 where
  pub datagram : Bytes
  pub deadline : ℕ

pub record InboundFrameQueue : Type 0 where
  pub mtu : ℕ
  pub queue : List QueuedFrame
  pub recent : List RecentFrame
  pub reassembler : Reassembler
  pub metrics : IngressMetrics
  pub stopped : Bool

unfoldable pub create_queue : ℕ → InboundFrameQueue
unfolding create_reassembler
create_queue mtu = record {
  mtu = mtu;
  queue = [];
  recent = [];
  reassembler = create_reassembler mtu;
  metrics = record {
    queued_frames = 0;
    queue_high_water = 0;
    active_reassemblies = 0;
    reassembly_high_water = 0;
    malformed_frames = 0;
    stale_frames = 0;
    duplicate_frames = 0;
    capacity_rejections = 0;
    expired_reassemblies = 0;
    completed_posts = 0;
  };
  stopped = false;
}

abbrev pub counted : ℕ → ℕ
counted counter = (counter + 1) % 2 ^ 64

unfoldable pub update_metrics : InboundFrameQueue → InboundFrameQueue
unfolding active_count
update_metrics q = record q {
  metrics = record q.metrics {
    queued_frames = length q.queue;
    queue_high_water = max q.metrics.queue_high_water (length q.queue);
    active_reassemblies = active_count q.reassembler.slots;
    reassembly_high_water = max q.metrics.reassembly_high_water q.reassembler.high_water_count;
  };
}

-- The data pointer and the size behind it; `none` is the null pointer.
unfoldable pub enqueue :
    InboundFrameQueue → Option Bytes → ℕ → IngressEnqueueStatus × InboundFrameQueue
unfolding update_metrics
enqueue q none received_tick = if q.stopped then (enqueue_closed, q) else (enqueue_invalid, q)
enqueue q (some data_bytes) received_tick =
    if q.stopped
    then (enqueue_closed, q)
    else (if ltb (length data_bytes) frame_header_bytes
          || ltb q.mtu (length data_bytes)
          || ltb maximum_transport_mtu (length data_bytes)
        then (enqueue_invalid, q)
        else (if leb maximum_inbound_frames (length q.queue) then (enqueue_full, q) else (
          enqueue_accepted,
          update_metrics (record q {
            queue =
                q.queue ++ (record { datagram = data_bytes; received_tick = received_tick } ∷ []);
          }),
        )))

unfoldable pub expire_recent : ℕ → List RecentFrame → List RecentFrame
expire_recent now [] = []
expire_recent now (frame ∷ rest) =
    let kept = expire_recent now rest in
    if deadline_reached now frame.deadline then kept else frame ∷ kept

unfoldable pub any_recent : Bytes → List RecentFrame → Bool
any_recent datagram [] = false
any_recent datagram (frame ∷ rest) = frame.datagram == datagram || any_recent datagram rest

-- The frame that `std::find_if` finds goes to the end.
unfoldable pub move_to_end : Bytes → List RecentFrame → List RecentFrame
move_to_end datagram [] = []
move_to_end datagram (frame ∷ rest) =
    let moved = move_to_end datagram rest in
    if frame.datagram == datagram then rest ++ (frame ∷ []) else frame ∷ moved

unfoldable pub recently_committed : InboundFrameQueue → Bytes → ℕ → Bool × InboundFrameQueue
unfolding expire_recent any_recent move_to_end
recently_committed q datagram now =
    let recent = expire_recent now q.recent in
    if any_recent datagram recent
    then (true, record q { recent = move_to_end datagram recent })
    else (false, record q { recent = recent })
