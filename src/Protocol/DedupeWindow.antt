-- ===== src/Protocol/DedupeWindow.antt =====
-- src/protocol/dedupe_window.h and dedupe_window.cpp: the messages seen lately, oldest first.
pub mod Invariant
pub mod Remembers
pub mod Tests
use lora_messenger.Common.{
  ℕ, zero, suc, ◌+◌, ◌-◌, ◌%◌, ◌^◌, Bool, true, false, not, ◌&&◌, ◌||◌, Option, none, some, List,
  [], ◌∷◌, ◌++◌, length, ltb, leb, ◌==◌, nat_eq, list_eq, if◌then◌else◌,
}
use lora_messenger.Core.Result.{Result, success, failure, ◌>>=◌, ◌>>◌, reject}
use lora_messenger.Core.Uuid.{MessageId, message_id_eq}
use lora_messenger.Model.Post.{PostPayload, contains, post_eq}
use lora_messenger.Protocol.Limits.{Bytes}
use lora_messenger.Protocol.PostCodec.{PostCodecError, encode_post, decode_post}

pub record SeenMessageRecord : Type 0 where
  pub message_id : MessageId
  pub seen_order : ℕ
  pub encoded_post : Bytes

-- `Invalid` is never answered.
pub data DedupeClassification : Type 0 where
  new duplicate conflict invalid : DedupeClassification

-- `None` of the source's enumeration is `none` of an `Option`, or the success of a `Result`.
pub data DedupeError : Type 0 where
  invalid_capacity too_many_records invalid_record duplicate_message_id invalid_order : DedupeError
  order_exhausted protected_capacity : DedupeError

pub record MessageDedupeWindow : Type 0 where
  pub capacity : ℕ
  pub last_seen_order : ℕ
  pub records : List SeenMessageRecord

abbrev pub default_seen_message_capacity : ℕ
default_seen_message_capacity = 2048

-- The constructor, `none` where it throws.
pub create_window : ℕ → Option MessageDedupeWindow
create_window capacity =
    if capacity == 0
    then none
    else some (record { capacity = capacity; last_seen_order = 0; records = [] })

abbrev pub encodes_to : Result Bytes PostCodecError → Bytes → Bool
encodes_to (failure error) bytes = false
encodes_to (success encoded) bytes = encoded == bytes

abbrev pub decodes_to : Result PostPayload PostCodecError → PostPayload → Bool
decodes_to (failure error) post = false
decodes_to (success decoded) post = decoded == post

unfoldable pub is_canonical : MessageId → Bytes → Result PostPayload PostCodecError → Bool
is_canonical message_id bytes (failure error) = false
is_canonical message_id bytes (success decoded) =
    decoded.message_id == message_id && encodes_to (encode_post decoded) bytes

unfoldable pub is_canonical_record : SeenMessageRecord → Bool
unfolding is_canonical
is_canonical_record seen =
    not (seen.seen_order == 0)
    && is_canonical seen.message_id seen.encoded_post (decode_post (some seen.encoded_post))

unfoldable pub is_protected : MessageId → List MessageId → Bool
unfolding contains
is_protected message_id protected_message_ids = contains protected_message_ids message_id

abbrev pub last_order : ℕ → List SeenMessageRecord → ℕ
last_order order [] = order
last_order order (seen ∷ rest) = last_order seen.seen_order rest

abbrev pub seen_ids : List SeenMessageRecord → List MessageId
seen_ids [] = []
seen_ids (seen ∷ rest) = seen.message_id ∷ seen_ids rest

-- The loop of `restore`; `ids` and `orders` are the two sets.
unfoldable pub check_records :
    ℕ → List MessageId → List ℕ → ℕ → List SeenMessageRecord → Result (Unit {0}) DedupeError
unfolding is_canonical_record contains
check_records last ids orders previous_order [] = success tt
check_records last ids orders previous_order (seen ∷ rest) = do
  reject (not (is_canonical_record seen)) invalid_record
  reject (contains ids seen.message_id) duplicate_message_id
  reject
      (contains orders seen.seen_order
        || leb seen.seen_order previous_order
        || ltb last seen.seen_order)
      invalid_order
  check_records last (ids ++ (seen.message_id ∷ [])) (orders ++ (seen.seen_order ∷ []))
      seen.seen_order rest

-- Orders start at 1, so the last order of no records is 0.
unfoldable pub restore : ℕ → ℕ → List SeenMessageRecord → Result MessageDedupeWindow DedupeError
unfolding check_records
restore capacity last records = do
  reject (capacity == 0) invalid_capacity
  reject (ltb capacity (length records)) too_many_records
  check_records last [] [] 0 records
  reject (not (last_order 0 records == last)) invalid_order
  success (record { capacity = capacity; last_seen_order = last; records = records })

unfoldable pub find_record : List SeenMessageRecord → MessageId → Option SeenMessageRecord
find_record [] message_id = none
find_record (seen ∷ rest) message_id =
    if seen.message_id == message_id then some seen else find_record rest message_id

unfoldable pub classify : MessageDedupeWindow → MessageId → Bytes → DedupeClassification
unfolding find_record
classify window message_id canonical_post = elim (find_record window.records message_id) [
  | none ↦ new
  | some found ↦ if found.encoded_post == canonical_post then duplicate else conflict
]

-- Erases the first record that is not protected, if there is one.
unfoldable pub evict_record :
    List MessageId → List SeenMessageRecord → Option (List SeenMessageRecord)
unfolding is_protected
evict_record protected [] = none
evict_record protected (seen ∷ rest) =
    if not (is_protected seen.message_id protected)
    then some rest
    else keep seen (evict_record protected rest)
  where
    keep : SeenMessageRecord → Option (List SeenMessageRecord) → Option (List SeenMessageRecord)
    keep seen none = none
    keep seen (some rest) = some (seen ∷ rest)

-- The tail of `remember` for a new message, after the eviction.
abbrev pub push_record :
    MessageDedupeWindow → PostPayload → Bytes → List SeenMessageRecord → MessageDedupeWindow
push_record window post canonical_post kept =
    let order = (window.last_seen_order + 1) % 2 ^ 64 in
    record {
      capacity = window.capacity;
      last_seen_order = order;
      records =
          kept
          ++ (record {
            message_id = post.message_id;
            seen_order = order;
            encoded_post = canonical_post;
          }
              ∷ []);
    }

unfoldable pub remember_new :
    MessageDedupeWindow
    → PostPayload
    → Bytes
    → List MessageId
    → Option DedupeError × MessageDedupeWindow
unfolding evict_record
remember_new window post canonical_post protected =
    if window.last_seen_order == 2 ^ 64 - 1
    then (some order_exhausted, window)
    else (if leb window.capacity (length window.records)
        then (elim (evict_record protected window.records) [
          | none ↦ (some protected_capacity, window)
          | some kept ↦ (none, push_record window post canonical_post kept)
        ])
        else (none, push_record window post canonical_post window.records))

unfoldable pub remember :
    MessageDedupeWindow
    → PostPayload
    → Bytes
    → List MessageId
    → Option DedupeError × MessageDedupeWindow
unfolding classify remember_new
remember window post canonical_post protected =
    if not (decodes_to (decode_post (some canonical_post)) post)
    then (some invalid_record, window)
    else (if not (encodes_to (encode_post post) canonical_post)
        then (some invalid_record, window)
        else (elim (classify window post.message_id canonical_post) [
          | duplicate ↦ (none, window)
          | conflict ↦ (some duplicate_message_id, window)
          | invalid ↦ (some invalid_record, window)
          | new ↦ remember_new window post canonical_post protected
        ]))
