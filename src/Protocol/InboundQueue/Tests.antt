-- ===== src/Protocol/InboundQueue/Tests.antt =====
-- A queue on which `reassembler.cpp` is run.
use lora_messenger.Common.{
  ◌<◌, ◌≡◌, refl, true, false, none, some, List, [], ◌∷◌, drop, replicate, nat_eq, list_eq, arith,
}
use lora_messenger.Common.Tests.{list_beq}
use lora_messenger.Model.Post.{contains}
use lora_messenger.Protocol.Limits.{Bytes}
use lora_messenger.Protocol.Reassembler.Slots.{saturating_deadline}
use lora_messenger.Protocol.InboundQueue.{process_next, mark_committed}
use lora_messenger.Protocol.InboundQueue.Frames.{
  InboundFrameQueue, create_queue, recent_duplicate, expire_recent, any_recent,
}
use lora_messenger.Protocol.InboundQueue.Invariant.{
  create_queue-IsQueue, process_next-IsQueue, drain, drain-queue_empty,
}
use lora_messenger.Protocol.InboundQueue.Invariant.Bounds.{IsQueue}
use lora_messenger.Protocol.InboundQueue.Recent.{IsNext, mark_committed-recent_duplicate}
use lora_messenger.Protocol.InboundQueue.Recent.Calls.{
  Call, arrives, turn, commit, run, used, call, InTime,
}

abbrev datagram : Bytes
datagram = replicate 30 7

-- Two datagrams wait.
abbrev waiting : InboundFrameQueue
waiting = record (create_queue 48) {
  queue =
      record { datagram = datagram; received_tick = 10 }
      ∷ record { datagram = replicate 29 5; received_tick = 11 }
      ∷ [];
}

waiting-IsQueue : IsQueue waiting
unfolding create_queue
waiting-IsQueue =
    let v = create_queue-IsQueue 48 in
    record { queue_le = omega arith; recent_le = v.recent_le; reassembler_ok = v.reassembler_ok }

-- The datagram comes twice, is a repeat at first, and more is marked.
abbrev twice : InboundFrameQueue
twice = record (create_queue 48) {
  queue =
      record { datagram = datagram; received_tick = 10 }
      ∷ record { datagram = datagram; received_tick = 11 }
      ∷ [];
}

abbrev marked : InboundFrameQueue
marked = mark_committed twice (datagram ∷ []) 5

abbrev others : List Call
others = turn 12 ∷ commit (replicate 31 9 ∷ []) 13 ∷ arrives (some (replicate 29 5)) 14 ∷ []

others-InTime : InTime (saturating_deadline 5 60000) 1 marked others
unfolding create_queue used call saturating_deadline list_beq
others-InTime = (omega arith, ((omega arith, omega arith), (tt, tt)))

others-IsNext : IsNext (run marked others) datagram 20
unfolding create_queue run list_beq
others-IsNext = record {
  received_tick = 11;
  rest = record { datagram = replicate 29 5; received_tick = 14 } ∷ [];
  at_front = refl;
  not_before = omega arith;
  in_time = omega arith;
  running = refl;
}

listed : contains (datagram ∷ []) datagram ≡ true
unfolding contains list_beq
listed = refl

unknown : any_recent datagram (expire_recent 5 twice.recent) ≡ false
unfolding any_recent expire_recent create_queue
unknown = refl

soon : 20 < saturating_deadline 5 60000
unfolding saturating_deadline
soon = omega arith

mark_committed-recent_duplicate_example :
    (process_next (run marked others) 20).0 ≡ record { status = recent_duplicate; completed = none }
unfolding create_queue
mark_committed-recent_duplicate_example =
    mark_committed-recent_duplicate twice (datagram ∷ []) datagram 5 20 others listed (omega arith)
      (omega arith) (omega arith) unknown others-InTime soon others-IsNext

process_next-IsQueue_example :
    IsQueue (process_next waiting 12).1
    × (waiting.stopped ≡ false
        → ((process_next waiting 12).1.queue ≡ drop 1 waiting.queue)
          × ((process_next waiting 12).1.stopped ≡ false))
process_next-IsQueue_example = process_next-IsQueue waiting 12 waiting-IsQueue

is_running : waiting.stopped ≡ false
unfolding create_queue
is_running = refl

drain-queue_empty_example : (drain waiting (12 ∷ 13 ∷ [])).queue ≡ []
drain-queue_empty_example =
    drain-queue_empty waiting (12 ∷ 13 ∷ []) waiting-IsQueue is_running (omega arith)
