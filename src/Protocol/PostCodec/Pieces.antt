-- ===== src/Protocol/PostCodec/Pieces.antt =====
-- Each field that `decode_post` reads, and the bytes that it was read from.
use lora_messenger.Common.{
  ℕ, zero, suc, ◌+◌, ◌*◌, ◌^◌, ◌<◌, ◌≤◌, ◌≡◌, refl, sym, ap, ◌∙◌, subst, Bool, true, false, Option,
  none, some, some-injective, List, [], ◌∷◌, ◌++◌, append_assoc, length, length-take, length-drop,
  get_or, take, drop, All, All-drop, All-slice, arith, if◌then◌else◌, nat_eq,
}
use lora_messenger.Core.Result.{success, or_fail-eq_success}
use lora_messenger.Core.Uuid.{Uuid, IsUuid, InstallId, MessageId}
use lora_messenger.Model.Post.{ℤ, PostPayload, create_post}
use lora_messenger.Model.Post.Valid.Rules.{install_uuids, reply_uuid}
use lora_messenger.Words.Network.{IsByte, write_uint, read_uint, write_uint-read_uint, read_uint-lt}
use lora_messenger.Protocol.Limits.{Bytes}
use lora_messenger.Protocol.PostCodec.{
  invalid_post, is_present, decode_post, end_offset, read_input, encode_signed, decode_signed,
  read_uuid, read_mentions, mention_bytes, reply_bytes, time_bytes,
}
use lora_messenger.Protocol.PostCodec.Layout.{AllUuid, IsReplyData, IsTimeData, IsInt64, size_if}
use lora_messenger.Protocol.PostCodec.Offsets.{cut}

-- The checks that the bytes pass.
pub record Decoded (bytes : Bytes) (p : PostPayload) : Type 0 where
  pub lower : 46 ≤ length bytes
  pub flags : get_or bytes 0 0 < 4
  pub name_le : get_or bytes 41 0 ≤ 24
  pub body_le : get_or bytes 42 0 ≤ 160
  pub mentions_le : get_or bytes 43 0 ≤ 4
  pub end : end_offset bytes ≡ length bytes
  pub created : create_post (read_input bytes) ≡ success p

pub decode_post-Decoded :
    (bytes : Bytes) (p : PostPayload) → decode_post (some bytes) ≡ success p → Decoded bytes p
unfolding decode_post
decode_post-Decoded bytes p e =
    ground (arith, or_fail-eq_success (create_post (read_input bytes)) invalid_post {a = p})

encode_signed-decode_signed :
    (v : ℕ) → v < 2 ^ 64 → (encode_signed (decode_signed v) ≡ v) × IsInt64 (decode_signed v)
unfolding encode_signed decode_signed
encode_signed-decode_signed v h = ground arith

pub uuids_bytes : List Uuid → Bytes
uuids_bytes [] = []
uuids_bytes (u ∷ us) = u.bytes ++ uuids_bytes us

pub mention_bytes-install_uuids :
    (ms : List InstallId) → mention_bytes ms ≡ uuids_bytes (install_uuids ms)
unfolding mention_bytes uuids_bytes
mention_bytes-install_uuids [] = refl
mention_bytes-install_uuids (m ∷ ms) = ap (◌++◌ m.uuid.bytes) (mention_bytes-install_uuids ms)

drop_all : (xs : Bytes) (n : ℕ) → length xs ≤ n → drop n xs ≡ []
drop_all [] zero h = refl
drop_all [] (suc n) h = refl
drop_all (x ∷ xs) zero h = absurd (omega arith)
drop_all (x ∷ xs) (suc n) h = drop_all xs n (omega arith)

take_whole : (n : ℕ) (xs : Bytes) → length xs ≤ n → take n xs ≡ xs
take_whole zero [] h = refl
take_whole zero (x ∷ xs) h = absurd (omega arith)
take_whole (suc n) [] h = refl
take_whole (suc n) (x ∷ xs) h = ap (◌∷◌ x) (take_whole n xs (omega arith))

-- Eight bytes are a word, which is written back as these bytes.
pub read_word :
    (xs : Bytes)
    → length xs ≡ 8
    → All IsByte xs
    → (read_uint (2 ^ 64) 0 xs < 2 ^ 64) × (write_uint 8 (read_uint (2 ^ 64) 0 xs) ≡ xs)
read_word xs h w =
    let lt = read_uint-lt (2 ^ 64) xs w (rw h (omega arith)) in
    let back = write_uint-read_uint (2 ^ 64) xs w (rw h (omega arith)) in (rw h at lt, rw h at back)

pub mentions_cut :
    (n : ℕ) (bytes : Bytes) (offset k : ℕ)
    → k ≡ offset + n * 16
    → uuids_bytes (read_mentions n bytes offset) ++ drop k bytes ≡ drop offset bytes
unfolding uuids_bytes read_mentions read_uuid
mentions_cut zero bytes offset k e = let p : k ≡ offset = omega arith in rw p
mentions_cut (suc n) bytes offset k e =
    append_assoc (take 16 (drop offset bytes)) _ (drop k bytes)
    ∙ ap (◌++◌ (take 16 (drop offset bytes))) (mentions_cut n bytes (offset + 16) k (omega arith))
    ∙ cut bytes offset 16 (offset + 16) refl

-- An optional field, where `b` is its flag: it was read exactly if the flag is set, and its bytes are
-- those from its offset to its end.
pub reply_cut :
    (r : Option MessageId) (b : Bool) (bytes : Bytes) (offset : ℕ)
    → reply_uuid r ≡ (if b then some (read_uuid bytes offset) else none)
    → (is_present r ≡ b) × (reply_bytes r ++ drop (offset + size_if b 16) bytes ≡ drop offset bytes)
unfolding read_uuid reply_bytes
reply_cut none true bytes offset e = cc
reply_cut none false bytes offset e = (refl, ap (λ (k : ℕ). drop k bytes) (omega arith))
reply_cut (some r) true bytes offset e =
    let same : r.uuid.bytes ≡ take 16 (drop offset bytes) = ap Uuid.bytes (some-injective _ _ e) in
    (refl, ap (λ (xs : Bytes). xs ++ drop (offset + 16) bytes) same ∙ cut bytes offset 16 _ refl)
reply_cut (some r) false bytes offset e = cc

pub time_cut :
    (t : Option ℤ) (b : Bool) (bytes : Bytes) (offset : ℕ)
    → All IsByte bytes
    → t ≡ (
        if b
        then some (decode_signed (read_uint (2 ^ 64) 0 (take 8 (drop offset bytes))))
        else none)
    → offset + size_if b 8 ≡ length bytes
    → (is_present t ≡ b) × IsTimeData t × (time_bytes t ≡ drop offset bytes)
unfolding time_bytes
time_cut none true bytes offset w e l = cc
time_cut none false bytes offset w e l = (refl, tt, sym (drop_all bytes offset (omega arith)))
time_cut (some t) true bytes offset w e l =
    let rest = drop offset bytes in
    let whole : take 8 rest ≡ rest = take_whole 8 rest (omega (arith, length-drop offset bytes)) in
    let range = All-drop IsByte offset bytes w in
    let size : length rest ≡ 8 = omega (arith, length-drop offset bytes) in
    let same : t ≡ decode_signed (read_uint (2 ^ 64) 0 rest) = rw whole at (some-injective _ _ e) in
    let word = read_word rest size range in
    let (back, typed) = encode_signed-decode_signed (read_uint (2 ^ 64) 0 rest) word.0 in
    (refl, rw same typed, rw (same, back) word.1)
time_cut (some t) false bytes offset w e l = cc

pub IsUuid-read :
    (bytes : Bytes) (offset : ℕ)
    → All IsByte bytes
    → offset + 16 ≤ length bytes
    → IsUuid (read_uuid bytes offset)
unfolding read_uuid
IsUuid-read bytes offset w h = record {
  size = omega (arith, length-take 16 (drop offset bytes), length-drop offset bytes);
  range = All-slice IsByte 16 offset bytes w;
}

pub mentions_read :
    (n : ℕ) (bytes : Bytes) (offset : ℕ) (ms : List InstallId)
    → All IsByte bytes
    → offset + n * 16 ≤ length bytes
    → install_uuids ms ≡ read_mentions n bytes offset
    → AllUuid ms × (length ms ≡ n)
unfolding read_mentions
mentions_read zero bytes offset [] w h e = (tt, refl)
mentions_read zero bytes offset (m ∷ ms) w h e = cc
mentions_read (suc n) bytes offset [] w h e = cc
mentions_read (suc n) bytes offset (m ∷ ms) w h e =
    let head : m.uuid ≡ read_uuid bytes offset = cons_head e in
    let (all, size) = mentions_read n bytes (offset + 16) ms w (omega arith) (cons_tail e) in
    ((subst IsUuid (sym head) (IsUuid-read bytes offset w (omega arith)), all), ap suc size)
  where
    cons_head : {x y : Uuid} {xs ys : List Uuid} → x ∷ xs ≡ y ∷ ys → x ≡ y
    cons_head h = cc

    cons_tail : {x y : Uuid} {xs ys : List Uuid} → x ∷ xs ≡ y ∷ ys → xs ≡ ys
    cons_tail h = cc

pub reply_data :
    (r : Option MessageId) (b : Bool) (bytes : Bytes) (offset : ℕ)
    → All IsByte bytes
    → offset + size_if b 16 ≤ length bytes
    → reply_uuid r ≡ (if b then some (read_uuid bytes offset) else none)
    → IsReplyData r
reply_data none b bytes offset w h e = tt
reply_data (some r) true bytes offset w h e =
    subst IsUuid (sym (some-injective _ _ e)) (IsUuid-read bytes offset w h)
reply_data (some r) false bytes offset w h e = cc
