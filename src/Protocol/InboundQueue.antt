-- ===== src/Protocol/InboundQueue.antt =====
-- src/protocol/reassembler.h and reassembler.cpp, the class InboundFrameQueue: datagrams wait for their
-- turn, and those of posts that are stored already are dropped. A counter of 64 bits wraps around.
pub mod Frames
pub mod Invariant
pub mod Recent
pub mod Tests
use lora_messenger.Common.{
  ℕ, ◌+◌, ◌-◌, ◌%◌, ◌^◌, max, Bool, true, false, not, ◌||◌, ◌&&◌, Option, none, some, List, [], ◌∷◌,
  ◌++◌, length, drop, ltb, leb, ◌==◌, nat_eq, list_eq, if◌then◌else◌,
}
use lora_messenger.Core.Result.{Result, success, failure}
use lora_messenger.Protocol.Limits.{Bytes, frame_header_bytes, maximum_transport_mtu}
use lora_messenger.Protocol.FrameCodec.{DataFrame, FrameCodecError, decode_frame}
use lora_messenger.Protocol.Reassembler.Slots.{
  saturating_deadline, deadline_reached, reassembly_timeout_ticks, active_count,
}
use lora_messenger.Protocol.Reassembler.{accept, clear}
use lora_messenger.Protocol.Reassembler.State.{
  Reassembler, ReassemblyStatus, ReassemblyResult, CompletedPost, create_reassembler, expire,
}
use lora_messenger.Protocol.InboundQueue.Frames.{
  maximum_recent_frames, IngressProcessResult, QueuedFrame, RecentFrame, InboundFrameQueue, counted,
  update_metrics, expire_recent, any_recent, recently_committed, malformed, queue_closed,
  queue_empty, reassembly, recent_duplicate, stale,
}

-- `process_next` behind the reassembler, by its answer.
unfoldable pub process_status :
    InboundFrameQueue
    → ReassemblyStatus
    → Option CompletedPost
    → IngressProcessResult × InboundFrameQueue
process_status q ReassemblyStatus.duplicate_fragment completed = (
  record { status = reassembly ReassemblyStatus.duplicate_fragment; completed = none },
  record q { metrics = record q.metrics { duplicate_frames = counted q.metrics.duplicate_frames } },
)
process_status q ReassemblyStatus.capacity_exceeded completed = (
  record { status = reassembly ReassemblyStatus.capacity_exceeded; completed = none },
  record q {
    metrics = record q.metrics { capacity_rejections = counted q.metrics.capacity_rejections };
  },
)
process_status q ReassemblyStatus.complete completed = (
  record { status = reassembly ReassemblyStatus.complete; completed = completed },
  record q { metrics = record q.metrics { completed_posts = counted q.metrics.completed_posts } },
)
process_status q ReassemblyStatus.fragment_accepted completed =
    (record { status = reassembly ReassemblyStatus.fragment_accepted; completed = none }, q)
process_status q ReassemblyStatus.conflict completed =
    (record { status = reassembly ReassemblyStatus.conflict; completed = none }, q)
process_status q ReassemblyStatus.quarantined completed =
    (record { status = reassembly ReassemblyStatus.quarantined; completed = none }, q)
process_status q ReassemblyStatus.invalid_post completed =
    (record { status = reassembly ReassemblyStatus.invalid_post; completed = none }, q)

unfoldable pub process_accepted :
    InboundFrameQueue → ReassemblyResult × Reassembler → IngressProcessResult × InboundFrameQueue
unfolding update_metrics process_status
process_accepted q (result, reassembler) =
    process_status (update_metrics (record q { reassembler = reassembler })) result.status
      result.completed

unfoldable pub process_decoded :
    InboundFrameQueue
    → ℕ
    → Result DataFrame FrameCodecError
    → IngressProcessResult × InboundFrameQueue
unfolding accept process_accepted
process_decoded q received_tick (failure error) = (
  record { status = malformed; completed = none },
  record q { metrics = record q.metrics { malformed_frames = counted q.metrics.malformed_frames } },
)
process_decoded q received_tick (success frame) =
    process_accepted q (accept q.reassembler frame received_tick)

unfoldable pub process_recent :
    QueuedFrame → Bool × InboundFrameQueue → IngressProcessResult × InboundFrameQueue
unfolding process_decoded
process_recent queued (true, q) = (
  record { status = recent_duplicate; completed = none },
  record q { metrics = record q.metrics { duplicate_frames = counted q.metrics.duplicate_frames } },
)
process_recent queued (false, q) =
    process_decoded q queued.received_tick (decode_frame (some queued.datagram) q.mtu)

-- `process_next` with the frame that it took from the queue.
unfoldable pub process_queued :
    InboundFrameQueue → QueuedFrame → ℕ → IngressProcessResult × InboundFrameQueue
unfolding recently_committed process_recent
process_queued q queued now =
    if ltb now queued.received_tick || leb reassembly_timeout_ticks (now - queued.received_tick)
    then (
      record { status = stale; completed = none },
      record q { metrics = record q.metrics { stale_frames = counted q.metrics.stale_frames } },
    )
    else process_recent queued (recently_committed q queued.datagram now)

-- `process_next` behind the expiry.
unfoldable pub process_front :
    InboundFrameQueue → List QueuedFrame → ℕ → IngressProcessResult × InboundFrameQueue
unfolding update_metrics process_queued
process_front q [] now = (record { status = queue_empty; completed = none }, update_metrics q)
process_front q (queued ∷ rest) now =
    process_queued (update_metrics (record q { queue = rest })) queued now

unfoldable pub with_expired : InboundFrameQueue → Reassembler × ℕ → InboundFrameQueue
with_expired q (reassembler, expired) = record q {
  reassembler = reassembler;
  metrics = record q.metrics {
    expired_reassemblies = (q.metrics.expired_reassemblies + expired) % 2 ^ 64;
  };
}

unfoldable pub process_next : InboundFrameQueue → ℕ → IngressProcessResult × InboundFrameQueue
unfolding expire with_expired process_front
process_next q now =
    if q.stopped
    then (record { status = queue_closed; completed = none }, q)
    else process_front (with_expired q (expire now q.reassembler)) q.queue now

-- A round of the loop of `mark_committed`.
unfoldable pub mark_frame : ℕ → ℕ → List RecentFrame → Bytes → List RecentFrame
unfolding any_recent
mark_frame mtu deadline recent datagram =
    if ltb (length datagram) frame_header_bytes || ltb mtu (length datagram)
    then recent
    else (if any_recent datagram recent
        then recent
        else (if leb maximum_recent_frames (length recent) then drop 1 recent else recent)
          ++ (record { datagram = datagram; deadline = deadline } ∷ []))

unfoldable pub mark_frames : ℕ → ℕ → List RecentFrame → List Bytes → List RecentFrame
unfolding mark_frame
mark_frames mtu deadline recent [] = recent
mark_frames mtu deadline recent (datagram ∷ rest) =
    mark_frames mtu deadline (mark_frame mtu deadline recent datagram) rest

unfoldable pub mark_committed : InboundFrameQueue → List Bytes → ℕ → InboundFrameQueue
unfolding expire_recent mark_frames saturating_deadline
mark_committed q canonical_frames committed_tick = record q {
  recent =
      mark_frames q.mtu (saturating_deadline committed_tick reassembly_timeout_ticks)
        (expire_recent committed_tick q.recent) canonical_frames;
}

unfoldable pub stop : InboundFrameQueue → InboundFrameQueue
unfolding update_metrics clear
stop q =
    update_metrics
      (record q { stopped = true; queue = []; recent = []; reassembler = clear q.reassembler })
