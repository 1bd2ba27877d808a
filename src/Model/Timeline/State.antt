-- ===== src/Model/Timeline/State.antt =====
-- src/model/timeline.h and timeline.cpp: a timeline, how it is made and restored, and what it is asked.
use lora_messenger.Common.{
  ℕ, suc, ◌-◌, min, Bool, true, false, not, ◌&&◌, ◌||◌, Option, none, some, List, [], ◌∷◌, ◌++◌,
  length, get_elem?, ltb, leb, ◌==◌, nat_eq, if◌then◌else◌,
}
use lora_messenger.Core.Result.{Result, success, ◌>>=◌, ◌>>◌, reject}
use lora_messenger.Core.Uuid.{MessageId, InstallId, message_id_eq, install_id_eq}
use lora_messenger.Model.Post.{PostPayload, contains, post_eq}

-- `kMaxTimelineEntries` and `kMaxQueuedLocalPosts` of src/core/limits.h.
abbrev pub max_timeline_entries : ℕ
max_timeline_entries = 256

abbrev pub max_queued_local_posts : ℕ
max_queued_local_posts = 16

pub data LocalDeliveryState : Type 0 where
  queued broadcast failed unknown : LocalDeliveryState

-- `std::variant<ReceivedOrigin, LocalDelivery>`
pub data EntryOrigin : Type 0 where
  received_origin : EntryOrigin
  local_delivery : LocalDeliveryState → EntryOrigin

pub record TimelineEntry : Type 0 where
  pub post : PostPayload
  pub received_order : ℕ
  pub origin : EntryOrigin

-- `None` of the source's enumeration is `none` of an `Option`.
pub data TimelineInsertError : Type 0 where
  duplicate conflict queue_full full order_exhausted : TimelineInsertError

pub record TimelineInsertResult : Type 0 where
  pub error : Option TimelineInsertError
  pub evicted_message_id : Option MessageId
  pub received_order : Option ℕ

-- `None` of the source's enumeration is `none` of an `Option`.
pub data TransitionError : Type 0 where
  not_found not_local invalid_state : TransitionError

pub data ReplyState : Type 0 where
  not_reply parent_available parent_unavailable : ReplyState

pub data TimelineRestoreError : Type 0 where
  invalid_capacity too_many_entries invalid_order duplicate_message_id : TimelineRestoreError
  too_many_queued_entries : TimelineRestoreError

pub record Timeline : Type 0 where
  pub capacity : ℕ
  pub last_assigned_order : ℕ
  pub entries : List TimelineEntry

abbrev pub is_queued_state : LocalDeliveryState → Bool
is_queued_state queued = true
is_queued_state broadcast = false
is_queued_state failed = false
is_queued_state unknown = false

-- `local && local->state == LocalDeliveryState::Queued`
abbrev pub is_queued : EntryOrigin → Bool
is_queued received_origin = false
is_queued (local_delivery state) = is_queued_state state

abbrev pub has_id : MessageId → TimelineEntry → Bool
has_id message_id entry = entry.post.message_id == message_id

-- The constructor, `none` where it throws.
pub create_timeline : ℕ → ℕ → Option Timeline
create_timeline capacity last =
    if capacity == 0 || ltb max_timeline_entries capacity
    then none
    else some (record { capacity = capacity; last_assigned_order = last; entries = [] })

unfoldable pub queued_count : List TimelineEntry → ℕ
queued_count [] = 0
queued_count (entry ∷ rest) =
    if is_queued entry.origin then suc (queued_count rest) else queued_count rest

unfoldable pub find : List TimelineEntry → MessageId → Option TimelineEntry
find [] message_id = none
find (entry ∷ rest) message_id =
    if has_id message_id entry then some entry else find rest message_id

unfoldable pub any_with_id : List TimelineEntry → MessageId → Bool
any_with_id [] message_id = false
any_with_id (entry ∷ rest) message_id = has_id message_id entry || any_with_id rest message_id

-- The loop of `restore`: the number of queued entries, if no entry is refused. `before` are the
-- entries in front of this one.
unfoldable pub check_entries :
    ℕ → List TimelineEntry → ℕ → ℕ → List TimelineEntry → Result ℕ TimelineRestoreError
unfolding any_with_id
check_entries last before previous_order count [] = success count
check_entries last before previous_order count (entry ∷ rest) = do
  reject
      (entry.received_order == 0
        || ltb last entry.received_order
        || not (length before == 0) && leb entry.received_order previous_order)
      invalid_order
  reject (any_with_id before entry.post.message_id) duplicate_message_id
  check_entries last (before ++ (entry ∷ [])) entry.received_order
      (if is_queued entry.origin then suc count else count) rest

unfoldable pub restore : ℕ → ℕ → List TimelineEntry → Result Timeline TimelineRestoreError
unfolding check_entries
restore capacity last entries = do
  reject (capacity == 0 || ltb max_timeline_entries capacity) invalid_capacity
  reject (ltb capacity (length entries)) too_many_entries
  count ← check_entries last [] 0 0 entries
  reject (ltb (min max_queued_local_posts (capacity - 1)) count) too_many_queued_entries
  success (record { capacity = capacity; last_assigned_order = last; entries = entries })

unfoldable pub queued_capacity : Timeline → ℕ
queued_capacity t = min max_queued_local_posts (t.capacity - 1)

pub newest_at : Timeline → ℕ → Option TimelineEntry
newest_at t index =
    if leb (length t.entries) index
    then none
    else get_elem? t.entries (length t.entries - 1 - index)

pub reply_state : Timeline → TimelineEntry → ReplyState
unfolding find
reply_state t entry = elim entry.post.reply_to [
  | none ↦ not_reply
  | some parent ↦ elim (find t.entries parent) [
    | none ↦ parent_unavailable
    | some found ↦ parent_available
  ]
]

pub mentions : TimelineEntry → InstallId → Bool
unfolding contains
mentions entry install_id = contains entry.post.mentions install_id
