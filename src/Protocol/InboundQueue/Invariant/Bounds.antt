-- ===== src/Protocol/InboundQueue/Invariant/Bounds.antt =====
-- The bounds of the queue, and the operations that are not `process_next`.
use lora_messenger.Common.{
  ℕ, suc, ◌≤◌, ◌≡◌, refl, ap, ◌||◌, Bool-cases, inl, inr, Option, none, some, List, [], ◌∷◌, length,
  drop, ltb, leb, ◌==◌, nat_eq, list_eq, length-append, length-drop, arith,
}
use lora_messenger.Protocol.Limits.{Bytes, frame_header_bytes, maximum_transport_mtu}
use lora_messenger.Protocol.Reassembler.Invariant.{IsReassembler}
use lora_messenger.Protocol.Reassembler.Calls.{clear-IsReassembler}
use lora_messenger.Protocol.Reassembler.Slots.{saturating_deadline, reassembly_timeout_ticks}
use lora_messenger.Protocol.InboundQueue.{mark_frame, mark_frames, mark_committed, stop}
use lora_messenger.Protocol.InboundQueue.Frames.{
  InboundFrameQueue, RecentFrame, maximum_inbound_frames, enqueue, expire_recent, move_to_end,
  update_metrics,
}

pub record IsQueue (q : InboundFrameQueue) : Type 0 where
  pub queue_le : length q.queue ≤ 64
  pub recent_le : length q.recent ≤ 128
  pub reassembler_ok : IsReassembler q.reassembler

pub enqueue-IsQueue :
    (q : InboundFrameQueue) (data_bytes : Option Bytes) (tick : ℕ)
    → IsQueue q
    → IsQueue (enqueue q data_bytes tick).1
unfolding enqueue update_metrics
enqueue-IsQueue q none tick v = elim (Bool-cases q.stopped) [ inl e ↦ simp e v | inr e ↦ simp e v ]
enqueue-IsQueue q (some bytes) tick v = elim (Bool-cases q.stopped) [
  | inl e ↦ simp e v
  | inr e ↦
      elim (Bool-cases (
        ltb (length bytes) frame_header_bytes
        || ltb q.mtu (length bytes)
        || ltb maximum_transport_mtu (length bytes))) [
          | inl bad ↦ simp (e, bad) v
          | inr good ↦ elim (Bool-cases (leb maximum_inbound_frames (length q.queue))) [
            | inl full ↦ simp (e, good, full) v
            | inr room ↦
                simp (e, good, room)
                  (record {
                    queue_le = ground (
                      arith,
                      room,
                      length-append q.queue
                          (record { datagram = bytes; received_tick = tick } ∷ []),
                    );
                    recent_le = v.recent_le;
                    reassembler_ok = v.reassembler_ok;
                  })
          ]
        ]
]

pub expire_recent-length :
    (now : ℕ) (xs : List RecentFrame) → length (expire_recent now xs) ≤ length xs
unfolding expire_recent
expire_recent-length now [] = omega arith
expire_recent-length now (x ∷ xs) = ground (arith, expire_recent-length now xs)

pub move_to_end-length :
    (datagram : Bytes) (xs : List RecentFrame) → length (move_to_end datagram xs) ≡ length xs
unfolding move_to_end
move_to_end-length datagram [] = refl
move_to_end-length datagram (x ∷ xs) = elim (Bool-cases (x.datagram == datagram)) [
  | inl e ↦ rw e (omega (arith, length-append xs (x ∷ [])))
  | inr e ↦ rw e (ap suc (move_to_end-length datagram xs))
]

mark_frame-length :
    (mtu deadline : ℕ) (recent : List RecentFrame) (datagram : Bytes)
    → length recent ≤ 128
    → length (mark_frame mtu deadline recent datagram) ≤ 128
unfolding mark_frame
mark_frame-length mtu deadline recent datagram h =
    let x : RecentFrame = record { datagram = datagram; deadline = deadline } in
    ground (
      arith,
      h,
      length-append recent (x ∷ []),
      length-append (drop 1 recent) (x ∷ []),
      length-drop 1 recent,
    )

mark_frames-length :
    (mtu deadline : ℕ) (recent : List RecentFrame) (frames : List Bytes)
    → length recent ≤ 128
    → length (mark_frames mtu deadline recent frames) ≤ 128
unfolding mark_frames
mark_frames-length mtu deadline recent [] h = h
mark_frames-length mtu deadline recent (x ∷ xs) h =
    mark_frames-length mtu deadline (mark_frame mtu deadline recent x) xs
      (mark_frame-length mtu deadline recent x h)

pub mark_committed-IsQueue :
    (q : InboundFrameQueue) (frames : List Bytes) (tick : ℕ)
    → IsQueue q
    → IsQueue (mark_committed q frames tick)
unfolding mark_committed
mark_committed-IsQueue q frames tick v = record {
  queue_le = v.queue_le;
  recent_le =
      mark_frames-length q.mtu (saturating_deadline tick reassembly_timeout_ticks)
        (expire_recent tick q.recent) frames
        (omega (arith, expire_recent-length tick q.recent, v.recent_le));
  reassembler_ok = v.reassembler_ok;
}

pub stop-IsQueue : (q : InboundFrameQueue) → IsQueue q → IsQueue (stop q)
unfolding stop update_metrics
stop-IsQueue q v = record {
  queue_le = omega arith;
  recent_le = omega arith;
  reassembler_ok = clear-IsReassembler q.reassembler v.reassembler_ok;
}
