-- ===== src/Protocol/InboundQueue/Invariant.antt =====
-- The bounds of the queue, which every call keeps, and that the queue runs empty.
pub mod Bounds
use lora_messenger.Common.{
  ℕ, suc, ◌-◌, ◌≤◌, ◌≡◌, refl, sym, ap, ◌∙◌, subst, Bool, true, false, ◌||◌, Bool-cases, inl, inr,
  Option, none, some, List, [], ◌∷◌, length, drop, ltb, leb, ◌==◌, nat_eq, list_eq, length-append,
  length-drop, arith, if◌then◌else◌,
}
use lora_messenger.Core.Result.{Result, success, failure}
use lora_messenger.Protocol.Limits.{Bytes, frame_header_bytes, maximum_transport_mtu}
use lora_messenger.Protocol.FrameCodec.{DataFrame, FrameCodecError, decode_frame}
use lora_messenger.Protocol.Reassembler.{accept}
use lora_messenger.Protocol.Reassembler.State.{ReassemblyStatus, CompletedPost, expire}
use lora_messenger.Protocol.Reassembler.Invariant.{IsReassembler, expire-IsReassembler}
use lora_messenger.Protocol.Reassembler.Calls.{
  accept-IsReassembler, clear-IsReassembler, create_reassembler-IsReassembler,
}
use lora_messenger.Protocol.Reassembler.Slots.{saturating_deadline, reassembly_timeout_ticks}
use lora_messenger.Protocol.InboundQueue.{
  process_status, process_accepted, process_decoded, process_recent, process_queued, process_front,
  process_next, with_expired, mark_frame, mark_frames, mark_committed, stop,
}
use lora_messenger.Protocol.InboundQueue.Frames.{
  InboundFrameQueue, IngressMetrics, queue_closed, QueuedFrame, RecentFrame, IngressProcessResult,
  maximum_inbound_frames, create_queue, enqueue, expire_recent, any_recent, move_to_end,
  recently_committed, update_metrics,
}
use lora_messenger.Protocol.InboundQueue.Invariant.Bounds.{
  IsQueue, expire_recent-length, move_to_end-length,
}

-- The queue is in order and has these frames.
abbrev Leaves : List QueuedFrame → Bool → IngressProcessResult × InboundFrameQueue → Type 0
Leaves rest over (result, q) = IsQueue q × (q.queue ≡ rest) × (q.stopped ≡ over)

-- Counters are not part of the invariant.
counted-IsQueue :
    (q : InboundFrameQueue) (metrics : IngressMetrics)
    → IsQueue q
    → IsQueue (record q { metrics = metrics })
counted-IsQueue q metrics v = record {
  queue_le = v.queue_le;
  recent_le = v.recent_le;
  reassembler_ok = v.reassembler_ok;
}

process_status-Leaves :
    (q : InboundFrameQueue) (status : ReassemblyStatus) (completed : Option CompletedPost)
    → IsQueue q
    → Leaves q.queue q.stopped (process_status q status completed)
unfolding process_status
process_status-Leaves q ReassemblyStatus.fragment_accepted completed v = (v, refl, refl)
process_status-Leaves q ReassemblyStatus.duplicate_fragment completed v =
    (counted-IsQueue q _ v, refl, refl)
process_status-Leaves q ReassemblyStatus.complete completed v = (counted-IsQueue q _ v, refl, refl)
process_status-Leaves q ReassemblyStatus.capacity_exceeded completed v =
    (counted-IsQueue q _ v, refl, refl)
process_status-Leaves q ReassemblyStatus.conflict completed v = (v, refl, refl)
process_status-Leaves q ReassemblyStatus.quarantined completed v = (v, refl, refl)
process_status-Leaves q ReassemblyStatus.invalid_post completed v = (v, refl, refl)

process_decoded-Leaves :
    (q : InboundFrameQueue) (tick : ℕ) (decoded : Result DataFrame FrameCodecError)
    → IsQueue q
    → Leaves q.queue q.stopped (process_decoded q tick decoded)
unfolding process_decoded process_accepted update_metrics
process_decoded-Leaves q tick (failure error) v = (counted-IsQueue q _ v, refl, refl)
process_decoded-Leaves q tick (success frame) v =
    let answer = accept q.reassembler frame tick in
    process_status-Leaves _ answer.0.status answer.0.completed (record {
      queue_le = v.queue_le;
      recent_le = v.recent_le;
      reassembler_ok = accept-IsReassembler q.reassembler frame tick v.reassembler_ok;
    })

process_recent-Leaves :
    (q : InboundFrameQueue) (queued : QueuedFrame) (answer : Bool × InboundFrameQueue)
    → IsQueue answer.1
    → answer.1.queue ≡ q.queue
    → answer.1.stopped ≡ q.stopped
    → Leaves q.queue q.stopped (process_recent queued answer)
unfolding process_recent
process_recent-Leaves q queued (true, p) v e f = (counted-IsQueue p _ v, e, f)
process_recent-Leaves q queued (false, p) v e f =
    let (w, g, h) =
      process_decoded-Leaves p queued.received_tick (decode_frame (some queued.datagram) p.mtu) v in
    (w, g ∙ e, h ∙ f)

recently_committed-IsQueue :
    (q : InboundFrameQueue) (datagram : Bytes) (now : ℕ)
    → IsQueue q
    → IsQueue (recently_committed q datagram now).1
      × ((recently_committed q datagram now).1.queue ≡ q.queue)
      × ((recently_committed q datagram now).1.stopped ≡ q.stopped)
unfolding recently_committed
recently_committed-IsQueue q datagram now v =
    let small = expire_recent-length now q.recent in
    elim (Bool-cases (any_recent datagram (expire_recent now q.recent))) [
      | inl known ↦ rw known (
        record {
          queue_le = v.queue_le;
          recent_le =
              omega (
                arith,
                move_to_end-length datagram (expire_recent now q.recent),
                small,
                v.recent_le,
              );
          reassembler_ok = v.reassembler_ok;
        },
        refl,
        refl,
      )
      | inr new ↦ rw new (
        record {
          queue_le = v.queue_le;
          recent_le = omega (arith, small, v.recent_le);
          reassembler_ok = v.reassembler_ok;
        },
        refl,
        refl,
      )
    ]

process_queued-Leaves :
    (q : InboundFrameQueue) (queued : QueuedFrame) (now : ℕ)
    → IsQueue q
    → Leaves q.queue q.stopped (process_queued q queued now)
unfolding process_queued
process_queued-Leaves q queued now v =
    let (w, e, f) = recently_committed-IsQueue q queued.datagram now v in
    elim (Bool-cases
      (ltb now queued.received_tick || leb reassembly_timeout_ticks (now - queued.received_tick))) [
        | inl old ↦ rw old (counted-IsQueue q _ v, refl, refl)
        | inr fresh ↦
            rw fresh
              (process_recent-Leaves q queued (recently_committed q queued.datagram now) w e f)
      ]

process_front-Leaves :
    (q : InboundFrameQueue) (frames : List QueuedFrame) (now : ℕ)
    → q.queue ≡ frames
    → IsQueue q
    → Leaves (drop 1 frames) q.stopped (process_front q frames now)
unfolding process_front update_metrics
process_front-Leaves q [] now e v = (counted-IsQueue q _ v, e, refl)
process_front-Leaves q (queued ∷ rest) now e v = process_queued-Leaves _ queued now (record {
  queue_le = omega (arith, v.queue_le, ap length e);
  recent_le = v.recent_le;
  reassembler_ok = v.reassembler_ok;
})

pub process_next-running :
    (q : InboundFrameQueue) (now : ℕ)
    → q.stopped ≡ false
    → process_next q now ≡ process_front (with_expired q (expire now q.reassembler)) q.queue now
unfolding process_next
process_next-running q now e =
    ap
      (λ (over : Bool).
        if over
        then (record { status = queue_closed; completed = none }, q)
        else process_front (with_expired q (expire now q.reassembler)) q.queue now)
      e

-- Whatever it answers, `process_next` keeps the bounds of the queue, and as long as the queue is not
-- stopped it takes exactly the frame at the front.
pub process_next-IsQueue :
    (q : InboundFrameQueue) (now : ℕ)
    → IsQueue q
    → IsQueue (process_next q now).1
      × (q.stopped ≡ false
          → ((process_next q now).1.queue ≡ drop 1 q.queue)
            × ((process_next q now).1.stopped ≡ false))
unfolding process_next with_expired
process_next-IsQueue q now v = elim (Bool-cases q.stopped) [
  | inl over ↦ simp over (v, λ e. absurd (cc e))
  | inr running ↦
      let (w, e, f) =
        process_front-Leaves (with_expired q (expire now q.reassembler)) q.queue now refl (record {
          queue_le = v.queue_le;
          recent_le = v.recent_le;
          reassembler_ok = expire-IsReassembler now q.reassembler v.reassembler_ok;
        }) in
      subst
        (λ (x : IngressProcessResult × InboundFrameQueue).
          IsQueue x.1 × (q.stopped ≡ false → (x.1.queue ≡ drop 1 q.queue) × (x.1.stopped ≡ false)))
        (sym (process_next-running q now running)) (w, λ _. (e, f ∙ running))
]

-- The calls that empty the queue, at these ticks.
abbrev pub drain : InboundFrameQueue → List ℕ → InboundFrameQueue
drain q [] = q
drain q (now ∷ ticks) = drain (process_next q now).1 ticks

-- A queue in order that is not stopped is empty after as many calls of `process_next` as it has
-- frames, whatever the frames are and whatever the ticks.
pub drain-queue_empty :
    (q : InboundFrameQueue) (ticks : List ℕ)
    → IsQueue q
    → q.stopped ≡ false
    → length q.queue ≤ length ticks
    → (drain q ticks).queue ≡ []
drain-queue_empty q [] v running h = nothing q.queue h
  where
    nothing : (frames : List QueuedFrame) → length frames ≤ 0 → frames ≡ []
    nothing [] h = refl
    nothing (x ∷ xs) h = absurd (omega arith)
drain-queue_empty q (now ∷ ticks) v running h =
    let (w, goes) = process_next-IsQueue q now v in
    let (e, f) = goes running in
    drain-queue_empty (process_next q now).1 ticks w f
      (omega (arith, h, ap length e, length-drop 1 q.queue))

pub create_queue-IsQueue : (mtu : ℕ) → IsQueue (create_queue mtu)
unfolding create_queue
create_queue-IsQueue mtu = record {
  queue_le = omega arith;
  recent_le = omega arith;
  reassembler_ok = create_reassembler-IsReassembler mtu;
}
