-- ===== src/Protocol/InboundQueue/Recent/Calls.antt =====
-- src/protocol/reassembler.cpp: sequences of calls of the queue, and what they leave of a marked datagram.
use lora_messenger.Common.{
  ℕ, suc, ◌+◌, ◌-◌, ◌<◌, ◌≤◌, ◌≡◌, ◌≢◌, refl, Bool, false, ◌||◌, Bool-cases, inl, inr, Option, none,
  some, List, [], ◌∷◌, length, ltb, leb, nat_eq, list_eq, arith,
}
use lora_messenger.Core.Result.{Result, success, failure}
use lora_messenger.Protocol.Limits.{Bytes}
use lora_messenger.Protocol.FrameCodec.{DataFrame, FrameCodecError, decode_frame}
use lora_messenger.Protocol.Reassembler.{accept}
use lora_messenger.Protocol.Reassembler.State.{ReassemblyStatus, CompletedPost, expire}
use lora_messenger.Protocol.Reassembler.Slots.{reassembly_timeout_ticks}
use lora_messenger.Protocol.InboundQueue.{
  process_status, process_accepted, process_decoded, process_recent, process_queued, process_front,
  process_next, with_expired, mark_committed, stop,
}
use lora_messenger.Protocol.InboundQueue.Frames.{
  InboundFrameQueue, QueuedFrame, RecentFrame, IngressProcessStatus, IngressProcessResult,
  recent_duplicate, enqueue, expire_recent, any_recent, recently_committed, update_metrics,
}
use lora_messenger.Protocol.InboundQueue.Invariant.{process_next-running}
use lora_messenger.Protocol.InboundQueue.Recent.Near.{
  Near, Near-le, expire_recent-Near, move_to_end-Near, mark_frames-Near,
}

pub data Call : Type 0 where
  arrives : Option Bytes → ℕ → Call
  turn : ℕ → Call
  commit : List Bytes → ℕ → Call
  close : Call

unfoldable pub call : InboundFrameQueue → Call → InboundFrameQueue
unfolding enqueue process_next mark_committed stop
call q (arrives data_bytes received_tick) = (enqueue q data_bytes received_tick).1
call q (turn now) = (process_next q now).1
call q (commit canonical_frames committed_tick) = mark_committed q canonical_frames committed_tick
call q close = stop q

unfoldable pub run : InboundFrameQueue → List Call → InboundFrameQueue
unfolding call
run q [] = q
run q (c ∷ cs) = run (call q c) cs

unfoldable pub repeats : IngressProcessStatus → ℕ
repeats recent_duplicate = 1
repeats _ = 0

-- How many datagrams were marked or answered as recent duplicates, after the call.
unfoldable pub used : ℕ → InboundFrameQueue → Call → ℕ
unfolding repeats process_next
used count q (arrives data_bytes received_tick) = count
used count q (turn now) = count + repeats (process_next q now).0.status
used count q (commit canonical_frames committed_tick) = count + length canonical_frames
used count q close = count

-- The call comes before the deadline, and if it marks, no more than 128 are used with its own.
abbrev pub Fits : ℕ → ℕ → Call → Type 0
Fits deadline count (arrives data_bytes received_tick) = Unit {0}
Fits deadline count (turn now) = now < deadline
Fits deadline count (commit canonical_frames committed_tick) =
    (committed_tick < deadline) × (count + length canonical_frames ≤ 128)
Fits deadline count close = Unit {0}

abbrev pub InTime : ℕ → ℕ → InboundFrameQueue → List Call → Type 0
InTime deadline count q [] = Unit {0}
InTime deadline count q (c ∷ cs) =
    Fits deadline count c × InTime deadline (used count q c) (call q c) cs

-- The recent window and the stop of another queue.
abbrev Same : InboundFrameQueue → InboundFrameQueue → Type 0
Same q p = (p.recent ≡ q.recent) × (p.stopped ≡ q.stopped)

enqueue-Same :
    (q : InboundFrameQueue) (data_bytes : Option Bytes) (tick : ℕ)
    → Same q (enqueue q data_bytes tick).1
unfolding enqueue update_metrics
enqueue-Same q none tick = ground arith
enqueue-Same q (some bytes) tick = ground arith

process_status-Same :
    (q : InboundFrameQueue) (status : ReassemblyStatus) (completed : Option CompletedPost)
    → Same q (process_status q status completed).1
unfolding process_status
process_status-Same q ReassemblyStatus.fragment_accepted completed = (refl, refl)
process_status-Same q ReassemblyStatus.duplicate_fragment completed = (refl, refl)
process_status-Same q ReassemblyStatus.complete completed = (refl, refl)
process_status-Same q ReassemblyStatus.capacity_exceeded completed = (refl, refl)
process_status-Same q ReassemblyStatus.conflict completed = (refl, refl)
process_status-Same q ReassemblyStatus.quarantined completed = (refl, refl)
process_status-Same q ReassemblyStatus.invalid_post completed = (refl, refl)

process_decoded-Same :
    (q : InboundFrameQueue) (tick : ℕ) (decoded : Result DataFrame FrameCodecError)
    → Same q (process_decoded q tick decoded).1
unfolding process_decoded process_accepted update_metrics
process_decoded-Same q tick (failure error) = (refl, refl)
process_decoded-Same q tick (success frame) =
    let answer = accept q.reassembler frame tick in
    process_status-Same _ answer.0.status answer.0.completed

stop-running : (q : InboundFrameQueue) → (stop q).stopped ≢ false
unfolding stop update_metrics
stop-running q e = cc e

module _ (datagram : Bytes) (deadline : ℕ) where
  -- The datagram is still among the last that were used, a recent duplicate counted.
  abbrev Follows : ℕ → Bool → IngressProcessResult × InboundFrameQueue → Type 0
  Follows count over (result, q) =
      Near datagram deadline (count + repeats result.status) q.recent × (q.stopped ≡ over)

  unused :
      (count extra : ℕ) (recent kept : List RecentFrame)
      → Near datagram deadline count recent
      → kept ≡ recent
      → Near datagram deadline (count + extra) kept
  unused count extra recent kept n e =
      rw e (Near-le datagram deadline count (count + extra) recent n (omega arith))

  process_queued-Follows :
      (count : ℕ) (q : InboundFrameQueue) (queued : QueuedFrame) (now : ℕ)
      → now < deadline
      → Near datagram deadline count q.recent
      → Follows count q.stopped (process_queued q queued now)
  unfolding process_queued recently_committed process_recent repeats
  process_queued-Follows count q queued now l n =
      let kept = expire_recent now q.recent in
      let near = expire_recent-Near datagram deadline now count q.recent n l in
      elim (Bool-cases (
        ltb now queued.received_tick
        || leb reassembly_timeout_ticks (now - queued.received_tick))) [
          | inl old ↦ rw old (unused count 0 q.recent q.recent n refl, refl)
          | inr fresh ↦ elim (Bool-cases (any_recent queued.datagram kept)) [
            | inl known ↦
                rw (fresh, known)
                  (
                    Near-le datagram deadline (suc count) (count + 1) _
                        (move_to_end-Near datagram deadline queued.datagram count kept near)
                        (omega arith),
                    refl,
                  )
            | inr new ↦
                let p = record q { recent = kept } in
                let same =
                  process_decoded-Same p queued.received_tick
                    (decode_frame (some queued.datagram) q.mtu) in
                rw (fresh, new) (unused count _ kept _ near same.0, same.1)
          ]
        ]

  process_front-Follows :
      (count : ℕ) (q : InboundFrameQueue) (frames : List QueuedFrame) (now : ℕ)
      → now < deadline
      → Near datagram deadline count q.recent
      → Follows count q.stopped (process_front q frames now)
  unfolding process_front update_metrics repeats
  process_front-Follows count q [] now l n = (unused count 0 q.recent q.recent n refl, refl)
  process_front-Follows count q (queued ∷ rest) now l n =
      process_queued-Follows count _ queued now l n

  process_next-Follows :
      (count : ℕ) (q : InboundFrameQueue) (now : ℕ)
      → now < deadline
      → Near datagram deadline count q.recent
      → q.stopped ≡ false
      → Near datagram deadline
          (count + repeats (process_next q now).0.status)
          (process_next q now).1.recent
  unfolding with_expired
  process_next-Follows count q now l n running =
      rw (process_next-running q now running)
        (process_front-Follows count (with_expired q (expire now q.reassembler)) q.queue now l n).0

  -- A queue that is not stopped holds the datagram among the last that were used.
  abbrev Kept : ℕ → InboundFrameQueue → Type 0
  Kept count q = q.stopped ≡ false → Near datagram deadline count q.recent

  Same-Kept : (count : ℕ) (q p : InboundFrameQueue) → Kept count q → Same q p → Kept count p
  Same-Kept count q p kept (e, f) running = rw e (kept (rw (← f) running))

  turn-Kept :
      (count : ℕ) (q : InboundFrameQueue) (now : ℕ)
      → now < deadline
      → Kept count q
      → Kept (count + repeats (process_next q now).0.status) (process_next q now).1
  unfolding process_next
  turn-Kept count q now l kept = elim (Bool-cases q.stopped) [
    | inl over ↦ simp over (λ running. absurd (cc running))
    | inr running ↦ λ _. process_next-Follows count q now l (kept running) running
  ]

  call-Kept :
      (count : ℕ) (q : InboundFrameQueue) (c : Call)
      → Fits deadline count c
      → Kept count q
      → Kept (used count q c) (call q c)
  unfolding call used mark_committed
  call-Kept count q (arrives data_bytes tick) fits kept =
      Same-Kept count q (enqueue q data_bytes tick).1 kept (enqueue-Same q data_bytes tick)
  call-Kept count q (turn now) fits kept = turn-Kept count q now fits kept
  call-Kept count q (commit frames tick) fits kept = λ running.
      mark_frames-Near datagram deadline q.mtu _ count _ frames
        (expire_recent-Near datagram deadline tick count q.recent (kept running) fits.0) fits.1
  call-Kept count q close fits kept = λ running. absurd (stop-running q running)

  pub run-Kept :
      (count : ℕ) (q : InboundFrameQueue) (calls : List Call)
      → Kept count q
      → InTime deadline count q calls
      → (run q calls).stopped ≡ false
      → (n : ℕ) × Near datagram deadline n (run q calls).recent
  unfolding run
  run-Kept count q [] kept timely running = (count, kept running)
  run-Kept count q (c ∷ cs) kept timely running =
      run-Kept (used count q c) (call q c) cs (call-Kept count q c timely.0 kept) timely.1 running
