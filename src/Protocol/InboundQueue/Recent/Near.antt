-- ===== src/Protocol/InboundQueue/Recent/Near.antt =====
-- src/protocol/reassembler.cpp: where a marked datagram stands in the recent window of the queue.
use lora_messenger.Common.{
  ℕ, suc, ◌+◌, ◌<◌, ◌≤◌, ◌≡◌, refl, sym, ◌∙◌, subst, true, false, ◌||◌, ◌⊎◌, Bool-cases, inl, inr,
  List, [], ◌∷◌, ◌++◌, length, drop, ltb, leb, ◌==◌, nat_eq, list_eq, list_beq_iff, length-append,
  arith, if◌then◌else◌,
}
use lora_messenger.Model.Post.{contains}
use lora_messenger.Protocol.Limits.{Bytes, frame_header_bytes}
use lora_messenger.Protocol.InboundQueue.{mark_frame, mark_frames}
use lora_messenger.Protocol.InboundQueue.Frames.{
  RecentFrame, maximum_recent_frames, expire_recent, any_recent, move_to_end,
}
use lora_messenger.Protocol.Reassembler.Slots.{deadline_reached}
use lora_messenger.Protocol.InboundQueue.Invariant.Bounds.{expire_recent-length, move_to_end-length}

abbrev pub entry : Bytes → ℕ → RecentFrame
entry datagram deadline = record { datagram = datagram; deadline = deadline }

-- The frame stands among the last so many of the list.
pub data Near (datagram : Bytes) (deadline count : ℕ) : List RecentFrame → Type 0 where
  here :
      (rest : List RecentFrame)
      → length rest < count
      → Near datagram deadline count (entry datagram deadline ∷ rest)
  there :
      (frame : RecentFrame) (rest : List RecentFrame)
      → Near datagram deadline count rest
      → Near datagram deadline count (frame ∷ rest)

module _ (datagram : Bytes) (deadline : ℕ) where
  pub Near-append :
      (count : ℕ) (xs : List RecentFrame) (x : RecentFrame)
      → Near datagram deadline count xs
      → Near datagram deadline (suc count) (xs ++ (x ∷ []))
  Near-append count xs x (here rest h) =
      here (rest ++ (x ∷ [])) (omega (arith, length-append rest (x ∷ [])))
  Near-append count xs x (there frame rest n) =
      there frame (rest ++ (x ∷ [])) (Near-append count rest x n)

  pub Near-le :
      (fewer count : ℕ) (xs : List RecentFrame)
      → Near datagram deadline fewer xs
      → fewer ≤ count
      → Near datagram deadline count xs
  Near-le fewer count xs (here rest h) l = here rest (omega arith)
  Near-le fewer count xs (there frame rest n) l = there frame rest (Near-le fewer count rest n l)

  -- Where the list is full, and the frame is not too far from its end, it is not the first.
  Near-drop :
      (count : ℕ) (xs : List RecentFrame)
      → Near datagram deadline count xs
      → count < length xs
      → Near datagram deadline count (drop 1 xs)
  Near-drop count xs (here rest h) l = absurd (omega arith)
  Near-drop count xs (there frame rest n) l = n

  mark_frame-Near :
      (mtu other : ℕ) (next : Bytes) (count : ℕ) (recent : List RecentFrame)
      → Near datagram deadline count recent
      → count < 128
      → Near datagram deadline (suc count) (mark_frame mtu other recent next)
  unfolding mark_frame
  mark_frame-Near mtu other next count recent n l =
      elim (Bool-cases (ltb (length next) frame_header_bytes || ltb mtu (length next))) [
        | inl bad ↦ rw bad (Near-le count (suc count) recent n (omega arith))
        | inr good ↦ elim (Bool-cases (any_recent next recent)) [
          | inl known ↦ rw (good, known) (Near-le count (suc count) recent n (omega arith))
          | inr new ↦ elim (Bool-cases (leb maximum_recent_frames (length recent))) [
            | inl full ↦
                rw (good, new, full)
                  (Near-append count (drop 1 recent) (entry next other)
                    (Near-drop count recent n (ground (arith, full, l))))
            | inr more ↦ rw (good, new, more) (Near-append count recent (entry next other) n)
          ]
        ]
      ]

  pub mark_frames-Near :
      (mtu other count : ℕ) (recent : List RecentFrame) (frames : List Bytes)
      → Near datagram deadline count recent
      → count + length frames ≤ 128
      → Near datagram deadline (count + length frames) (mark_frames mtu other recent frames)
  unfolding mark_frames
  mark_frames-Near mtu other count recent [] n l = let e : count + 0 ≡ count = omega arith in rw e n
  mark_frames-Near mtu other count recent (next ∷ frames) n l =
      let e : count + suc (length frames) ≡ suc count + length frames = omega arith in
      rw e (
        mark_frames-Near mtu other (suc count) (mark_frame mtu other recent next) frames
          (mark_frame-Near mtu other next count recent n (omega arith)) (omega arith))

  Near-end :
      (xs : List RecentFrame) → Near datagram deadline 1 (xs ++ (entry datagram deadline ∷ []))
  Near-end [] = here [] (omega arith)
  Near-end (x ∷ xs) = there x (xs ++ (entry datagram deadline ∷ [])) (Near-end xs)

  -- It is found as long as the deadline is ahead.
  pub any_recent-Near :
      (now count : ℕ) (xs : List RecentFrame)
      → Near datagram deadline count xs
      → now < deadline
      → any_recent datagram (expire_recent now xs) ≡ true
  unfolding any_recent expire_recent
  any_recent-Near now count xs (here rest h) l = ground (arith, l, list_beq_iff datagram datagram)
  any_recent-Near now count xs (there frame rest n) l =
      ground (arith, any_recent-Near now count rest n l)

  -- Expiry before the deadline keeps it, and brings nothing behind it.
  pub expire_recent-Near :
      (now count : ℕ) (xs : List RecentFrame)
      → Near datagram deadline count xs
      → now < deadline
      → Near datagram deadline count (expire_recent now xs)
  unfolding expire_recent
  expire_recent-Near now count xs (here rest h) l =
      elim (Bool-cases (deadline_reached now deadline)) [
        | inl over ↦ absurd (ground (arith, over))
        | inr ahead ↦
            rw ahead (here (expire_recent now rest) (omega (arith, expire_recent-length now rest)))
      ]
  expire_recent-Near now count xs (there frame rest n) l =
      elim (Bool-cases (deadline_reached now frame.deadline)) [
        | inl over ↦ rw over (expire_recent-Near now count rest n l)
        | inr ahead ↦
            rw ahead (there frame (expire_recent now rest) (expire_recent-Near now count rest n l))
      ]

  -- A frame that goes to the end is the frame itself, or comes behind it, or was behind it.
  pub move_to_end-Near :
      (other : Bytes) (count : ℕ) (xs : List RecentFrame)
      → Near datagram deadline count xs
      → Near datagram deadline (suc count) (move_to_end other xs)
  unfolding move_to_end
  move_to_end-Near other count xs (here rest h) = elim (Bool-cases (datagram == other)) [
    | inl same ↦ rw same (Near-le 1 (suc count) _ (Near-end rest) (omega arith))
    | inr apart ↦
        rw apart (here (move_to_end other rest) (omega (arith, move_to_end-length other rest)))
  ]
  move_to_end-Near other count xs (there frame rest n) =
      elim (Bool-cases (frame.datagram == other)) [
        | inl same ↦ rw same (Near-append count rest frame n)
        | inr apart ↦
            rw apart (there frame (move_to_end other rest) (move_to_end-Near other count rest n))
      ]

any_recent-append :
    (datagram : Bytes) (xs : List RecentFrame) (x : RecentFrame)
    → any_recent datagram (xs ++ (x ∷ [])) ≡ (any_recent datagram xs || x.datagram == datagram)
unfolding any_recent
any_recent-append datagram [] x = ground arith
any_recent-append datagram (y ∷ xs) x = ground (arith, any_recent-append datagram xs x)

any_recent-drop :
    (datagram : Bytes) (xs : List RecentFrame)
    → any_recent datagram xs ≡ false
    → any_recent datagram (drop 1 xs) ≡ false
unfolding any_recent
any_recent-drop datagram [] h = h
any_recent-drop datagram (x ∷ xs) h = ground (arith, h)

mark_frame-unknown :
    (mtu deadline : ℕ) (datagram next : Bytes) (recent : List RecentFrame)
    → any_recent datagram recent ≡ false
    → (next == datagram) ≡ false
    → any_recent datagram (mark_frame mtu deadline recent next) ≡ false
unfolding mark_frame
mark_frame-unknown mtu deadline datagram next recent new other =
    elim (Bool-cases (ltb (length next) frame_header_bytes || ltb mtu (length next))) [
      | inl bad ↦ rw bad new
      | inr good ↦ elim (Bool-cases (any_recent next recent)) [
        | inl known ↦ rw (good, known) new
        | inr absent ↦
            rw (good, absent)
              (any_recent-append datagram
                  (if leb maximum_recent_frames (length recent) then drop 1 recent else recent)
                  (entry next deadline)
                ∙ rw (other, room (Bool-cases (leb maximum_recent_frames (length recent)))) refl)
      ]
    ]
  where
    room :
        ((leb maximum_recent_frames (length recent) ≡ true)
          ⊎ (leb maximum_recent_frames (length recent) ≡ false))
        → any_recent datagram
            (if leb maximum_recent_frames (length recent) then drop 1 recent else recent)
          ≡ false
    room (inl full) = rw full (any_recent-drop datagram recent new)
    room (inr more) = rw more new

-- A datagram of the list that was not known before stands among those that the list has added.
pub mark_frames-known :
    (datagram : Bytes) (mtu deadline : ℕ) (recent : List RecentFrame) (frames : List Bytes)
    → 28 ≤ length datagram
    → length datagram ≤ mtu
    → length frames ≤ 128
    → contains frames datagram ≡ true
    → any_recent datagram recent ≡ false
    → Near datagram deadline (length frames) (mark_frames mtu deadline recent frames)
unfolding mark_frames mark_frame contains
mark_frames-known datagram mtu deadline recent [] small large many listed new = absurd (cc listed)
mark_frames-known datagram mtu deadline recent (next ∷ frames) small large many listed new =
    elim (Bool-cases (next == datagram)) [
      | inl same ↦
          let it : datagram ≡ next = sym ((list_beq_iff next datagram).0 same) in
          let fits : (ltb (length datagram) frame_header_bytes || ltb mtu (length datagram))
              ≡ false =
            ground arith in
          let one : 1 + length frames ≡ suc (length frames) = omega arith in
          subst
            (λ (n : ℕ).
              Near datagram deadline n
                (mark_frames mtu deadline (mark_frame mtu deadline recent next) frames))
            one
            (mark_frames-Near datagram deadline mtu deadline 1 _ frames
              (subst (λ (x : Bytes). Near datagram deadline 1 (mark_frame mtu deadline recent x)) it
                (rw (fits, new)
                  (Near-end datagram deadline
                    (if leb maximum_recent_frames (length recent) then drop 1 recent else recent))))
              (omega arith))
      | inr other ↦
          Near-le datagram deadline (length frames) (suc (length frames)) _
            (mark_frames-known datagram mtu deadline (mark_frame mtu deadline recent next) frames
              small large (omega arith) (ground (arith, listed, other))
              (mark_frame-unknown mtu deadline datagram next recent new other))
            (omega arith)
    ]
