-- ===== src/Model/Timeline/Restore.antt =====
-- `Timeline::restore` accepts what the timeline itself keeps.
use lora_messenger.Common.{
  ℕ, suc, ◌+◌, ◌-◌, ◌^◌, ◌<◌, ◌≤◌, ◌≡◌, ◌↔◌, refl, ap, ◌∙◌, min, false, not, ◌||◌, ◌&&◌, List, [],
  ◌∷◌, ◌++◌, length, ◌==◌, ltb, leb, nat_eq, arith, if◌then◌else◌,
}
use lora_messenger.Core.Result.{success, reject-eq_success, >>=-eq_success}
use lora_messenger.Core.Uuid.{MessageId, message_id_eq}
use lora_messenger.Model.Timeline.State.{
  TimelineEntry, Timeline, invalid_order, duplicate_message_id, invalid_capacity, too_many_entries,
  too_many_queued_entries, is_queued, has_id, queued_count, any_with_id, check_entries, restore,
  max_timeline_entries, max_queued_local_posts,
}
use lora_messenger.Model.Timeline.Entries.{Rising, Distinct, any_with_id-append}
use lora_messenger.Model.Timeline.Invariant.{IsTimeline}

-- No entry's identifier is among those before it.
abbrev New : List TimelineEntry → List TimelineEntry → Type 0
New before [] = Unit {0}
New before (e ∷ es) = (any_with_id before e.post.message_id ≡ false) × New (before ++ (e ∷ [])) es

-- The identifiers of two entries, compared either way.
has_id-swap : (a b : TimelineEntry) → has_id a.post.message_id b ≡ has_id b.post.message_id a
has_id-swap a b = ground (
  arith,
  message_id_eq.beq_iff a.post.message_id b.post.message_id,
  message_id_eq.beq_iff b.post.message_id a.post.message_id,
)

New-absent :
    (before : List TimelineEntry) (e : TimelineEntry) (es : List TimelineEntry)
    → ((id : MessageId) → any_with_id before id ≡ false → has_id id e ≡ false)
    → New before es
    → any_with_id es e.post.message_id ≡ false
unfolding any_with_id
New-absent before e [] h n = refl
New-absent before e (x ∷ es) h n =
    let rest =
      New-absent (before ++ (x ∷ [])) e es
        (λ id k. h id (ground (arith, k, any_with_id-append before x id))) n.1 in
    ground (arith, h x.post.message_id n.0, has_id-swap e x, rest)

New-Distinct : (before es : List TimelineEntry) → New before es → Distinct es
New-Distinct before [] n = tt
New-Distinct before (e ∷ es) n = (
  New-absent (before ++ (e ∷ [])) e es (λ id k. ground (arith, k, any_with_id-append before e id))
      n.1,
  New-Distinct (before ++ (e ∷ [])) es n.1,
)

abbrev Apart : List TimelineEntry → List TimelineEntry → Type 0
Apart before [] = Unit {0}
Apart before (x ∷ es) = (any_with_id before x.post.message_id ≡ false) × Apart before es

Apart-append :
    (before : List TimelineEntry) (e : TimelineEntry) (es : List TimelineEntry)
    → Apart before es
    → any_with_id es e.post.message_id ≡ false
    → Apart (before ++ (e ∷ [])) es
unfolding any_with_id
Apart-append before e [] h k = tt
Apart-append before e (x ∷ es) h k = (
  ground (arith, h.0, k, any_with_id-append before e x.post.message_id, has_id-swap e x),
  Apart-append before e es h.1 (ground (arith, k)),
)

Distinct-New : (before es : List TimelineEntry) → Distinct es → Apart before es → New before es
Distinct-New before [] d a = tt
Distinct-New before (e ∷ es) d a =
    (a.0, Distinct-New (before ++ (e ∷ [])) es d.1 (Apart-append before e es a.1 d.0))

nothing_Apart : (es : List TimelineEntry) → Apart [] es
unfolding any_with_id
nothing_Apart [] = tt
nothing_Apart (e ∷ es) = (refl, nothing_Apart es)

Rising-le : (low high : ℕ) (es : List TimelineEntry) → Rising low es high → low ≤ high
Rising-le low high [] r = r
Rising-le low high (e ∷ es) r = omega (arith, r.0, Rising-le e.received_order high es r.1)

module _ (last : ℕ) where
  -- The loop behind the first entry.
  check_entries-eq_success :
      (b : TimelineEntry) (before : List TimelineEntry) (previous count : ℕ)
      (es : List TimelineEntry) {n : ℕ}
      → check_entries last (b ∷ before) previous count es ≡ success n
      → previous ≤ last
      → Rising previous es last × New (b ∷ before) es × (n ≡ queued_count es + count)
  unfolding check_entries queued_count
  check_entries-eq_success b before previous count [] e h = (h, tt, ground (arith, e))
  check_entries-eq_success b before previous count (x ∷ es) e h =
      let (o, e1) =
        reject-eq_success
          (x.received_order == 0
            || ltb last x.received_order
            || not (length (b ∷ before) == 0) && leb x.received_order previous)
          invalid_order _ e in
      let (d, e2) =
        reject-eq_success (any_with_id (b ∷ before) x.post.message_id) duplicate_message_id _ e1 in
      let (r, u, q) =
        check_entries-eq_success b (before ++ (x ∷ [])) x.received_order
          (if is_queued x.origin then suc count else count) es e2 (ground (arith, o)) in
      ((ground (arith, o), r), (d, u), ground (arith, q))

  check_entries_again :
      (b : TimelineEntry) (before : List TimelineEntry) (previous count : ℕ)
      (es : List TimelineEntry)
      → Rising previous es last
      → New (b ∷ before) es
      → check_entries last (b ∷ before) previous count es ≡ success (queued_count es + count)
  unfolding check_entries queued_count
  check_entries_again b before previous count [] r u = ap success (omega arith)
  check_entries_again b before previous count (x ∷ es) r u =
      let order : (x.received_order == 0
            || ltb last x.received_order
            || not (length (b ∷ before) == 0) && leb x.received_order previous)
          ≡ false =
        ground (arith, r.0, Rising-le x.received_order last es r.1) in
      let sum : queued_count es + (if is_queued x.origin then suc count else count)
          ≡ (if is_queued x.origin then suc (queued_count es) else queued_count es) + count =
        ground arith in
      rw (order, u.0)
        (check_entries_again b (before ++ (x ∷ [])) x.received_order
            (if is_queued x.origin then suc count else count) es r.1 u.1
          ∙ ap success sum)

  check_all :
      (es : List TimelineEntry) {n : ℕ}
      → check_entries last [] 0 0 es ≡ success n
      → Rising 0 es last × Distinct es × (n ≡ queued_count es)
  unfolding check_entries queued_count any_with_id
  check_all [] e = (omega arith, tt, ground (arith, e))
  check_all (x ∷ es) e =
      let (o, e1) =
        reject-eq_success
          (x.received_order == 0
            || ltb last x.received_order
            || not (length {A = TimelineEntry} [] == 0) && leb x.received_order 0)
          invalid_order _ e in
      let (d, e2) =
        reject-eq_success (any_with_id [] x.post.message_id) duplicate_message_id _ e1 in
      let (r, u, q) =
        check_entries-eq_success x [] x.received_order (if is_queued x.origin then 1 else 0) es e2
          (ground (arith, o)) in
      ((ground (arith, o), r), New-Distinct [] (x ∷ es) (refl, u), ground (arith, q))

  check_all_again :
      (es : List TimelineEntry)
      → Rising 0 es last
      → Distinct es
      → check_entries last [] 0 0 es ≡ success (queued_count es)
  unfolding check_entries queued_count any_with_id
  check_all_again [] r d = refl
  check_all_again (x ∷ es) r d =
      let order : (x.received_order == 0
            || ltb last x.received_order
            || not (length {A = TimelineEntry} [] == 0) && leb x.received_order 0)
          ≡ false =
        ground (arith, r.0, Rising-le x.received_order last es r.1) in
      let unseen = Distinct-New [] (x ∷ es) d (nothing_Apart (x ∷ es)) in
      let sum : queued_count es + (if is_queued x.origin then 1 else 0)
          ≡ (if is_queued x.origin then suc (queued_count es) else queued_count es) =
        ground arith in
      rw order (
        check_entries_again x [] x.received_order (if is_queued x.origin then 1 else 0) es r.1
          unseen.1
        ∙ ap success sum)

-- `restore` accepts a stored timeline, whose last order fits in 64 bits, exactly if it has the invariant: a capacity of 1 to 256, no more entries
-- than that, rising orders up to the last one, different identifiers, and few enough queued entries.
pub restore_iff :
    (t : Timeline)
    → t.last_assigned_order < 2 ^ 64
    → (restore t.capacity t.last_assigned_order t.entries ≡ success t) ↔ IsTimeline t
unfolding restore
restore_iff t h = (
  λ e.
      let (c, e1) =
        reject-eq_success (t.capacity == 0 || ltb max_timeline_entries t.capacity) invalid_capacity
          _ e in
      let (m, e2) = reject-eq_success (ltb t.capacity (length t.entries)) too_many_entries _ e1 in
      let (n, checks, e3) =
        >>=-eq_success (check_entries t.last_assigned_order [] 0 0 t.entries) _ e2 in
      let (q, e4) =
        reject-eq_success (ltb (min max_queued_local_posts (t.capacity - 1)) n)
          too_many_queued_entries _ e3 in
      let (r, d, s) = check_all t.last_assigned_order t.entries checks in
      record {
        capacity_pos = ground (arith, c);
        capacity_le = ground (arith, c);
        size_le = ground (arith, m);
        order_range = h;
        ordered = r;
        distinct = d;
        queued_le = ground (arith, q, s);
      },
  λ v.
      let c : (t.capacity == 0 || ltb max_timeline_entries t.capacity) ≡ false =
        ground (arith, v.capacity_pos, v.capacity_le) in
      let m : ltb t.capacity (length t.entries) ≡ false = ground (arith, v.size_le) in
      let q : ltb (min max_queued_local_posts (t.capacity - 1)) (queued_count t.entries) ≡ false =
        ground (arith, v.queued_le) in
      rw (c, m, check_all_again t.last_assigned_order t.entries v.ordered v.distinct, q) refl,
)
