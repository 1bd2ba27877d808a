-- ===== src/Protocol/InboundQueue/Recent.antt =====
-- A datagram that was marked is recognised until its deadline, whatever the queue does meanwhile.
pub mod Near
pub mod Calls
use lora_messenger.Common.{
  ℕ, ◌+◌, ◌-◌, ◌<◌, ◌≤◌, ◌≡◌, refl, true, false, ◌||◌, none, List, ◌∷◌, length, ltb, leb, ◌==◌,
  nat_eq, list_eq, arith, if◌then◌else◌,
}
use lora_messenger.Model.Post.{contains}
use lora_messenger.Protocol.Limits.{Bytes}
use lora_messenger.Protocol.Reassembler.Slots.{saturating_deadline, reassembly_timeout_ticks}
use lora_messenger.Protocol.InboundQueue.{
  process_recent, process_queued, process_front, process_next, with_expired, mark_committed,
}
use lora_messenger.Protocol.InboundQueue.Frames.{
  InboundFrameQueue, QueuedFrame, recent_duplicate, expire_recent, any_recent, recently_committed,
  update_metrics,
}
use lora_messenger.Protocol.InboundQueue.Recent.Near.{any_recent-Near, mark_frames-known}
use lora_messenger.Protocol.InboundQueue.Recent.Calls.{Call, run, InTime, run-Kept}

-- The datagram at the front of the queue was kept back, and has come in time.
pub record IsNext (q : InboundFrameQueue) (datagram : Bytes) (now : ℕ) : Type 0 where
  pub received_tick : ℕ
  pub rest : List QueuedFrame
  pub at_front : q.queue ≡ record { datagram = datagram; received_tick = received_tick } ∷ rest
  pub not_before : received_tick ≤ now
  pub in_time : now < received_tick + 60000
  pub running : q.stopped ≡ false

recently-front :
    (q : InboundFrameQueue) (queued : QueuedFrame) (now : ℕ)
    → queued.received_tick ≤ now
    → now < queued.received_tick + 60000
    → any_recent queued.datagram (expire_recent now q.recent) ≡ true
    → (process_queued q queued now).0 ≡ record { status = recent_duplicate; completed = none }
unfolding process_queued recently_committed process_recent
recently-front q queued now before late known =
    let fresh : (ltb now queued.received_tick
          || leb reassembly_timeout_ticks (now - queued.received_tick))
        ≡ false =
      ground (arith, before, late) in
    rw (fresh, known) refl

-- At most 128 datagrams are marked, among them one that the transport can carry and that the queue did
-- not know. Its deadline is 60000 ticks later, or the last tick of 64 bits. Then come any calls of
-- enqueue, process_next, mark_committed and stop, those of process_next and mark_committed before the
-- deadline; up to the last mark_committed among them, at most 128 datagrams are marked or answered as
-- recent duplicates, the first marking included. Whenever the datagram then is at the front of the queue
-- before the deadline, not stale itself, and the queue is not stopped, process_next answers it as a
-- recent duplicate.
pub mark_committed-recent_duplicate :
    (q : InboundFrameQueue) (frames : List Bytes) (datagram : Bytes) (committed now : ℕ)
    (calls : List Call)
    → contains frames datagram ≡ true
    → 28 ≤ length datagram
    → length datagram ≤ q.mtu
    → length frames ≤ 128
    → any_recent datagram (expire_recent committed q.recent) ≡ false
    → InTime
        (saturating_deadline committed reassembly_timeout_ticks)
        (length frames)
        (mark_committed q frames committed)
        calls
    → now < saturating_deadline committed reassembly_timeout_ticks
    → IsNext (run (mark_committed q frames committed) calls) datagram now
    → (process_next (run (mark_committed q frames committed) calls) now).0
      ≡ record { status = recent_duplicate; completed = none }
unfolding process_next process_front mark_committed update_metrics with_expired
mark_committed-recent_duplicate q frames datagram committed now calls listed small large many new
      timely l v =
    let deadline = saturating_deadline committed reassembly_timeout_ticks in
    let (count, near) =
      run-Kept datagram deadline (length frames) (mark_committed q frames committed) calls
        (λ _.
          mark_frames-known datagram q.mtu deadline (expire_recent committed q.recent) frames small
            large many listed new)
        timely v.running in
    rw (v.running, v.at_front)
      (recently-front _ (record { datagram = datagram; received_tick = v.received_tick }) now
        v.not_before v.in_time (any_recent-Near datagram deadline now count _ near l))
