-- ===== src/Core/Uuid/Form.antt =====
-- The text of an identifier, its order and its hash: `Uuid::parse`, `Uuid::to_string`, `operator<` and
-- `UuidHash` of src/core/uuid.cpp. A character is its code.
use lora_messenger.Common.{
  ℕ, ◌+◌, ◌-◌, ◌*◌, ◌/◌, ◌%◌, ◌^◌, bit_xor, Bool, true, false, not, ◌&&◌, ◌||◌, Option, none, some,
  List, [], ◌∷◌, ◌++◌, length, get_or, set, replicate, ltb, leb, ◌==◌, nat_eq, if◌then◌else◌,
}
use lora_messenger.Core.Uuid.{Uuid}

abbrev pub hyphen : ℕ
hyphen = 0x2d

unfoldable pub hex_value : ℕ → Option ℕ
hex_value value =
    if leb 0x30 value && leb value 0x39
    then some (value - 0x30)
    else if leb 0x61 value && leb value 0x66
    then some (value - 0x61 + 10)
    else if leb 0x41 value && leb value 0x46
    then some (value - 0x41 + 10)
    else none

-- The places of the hyphens in the text, and of the bytes that follow them.
abbrev is_hyphen_index : ℕ → Bool
is_hyphen_index index = index == 8 || index == 13 || index == 18 || index == 23

abbrev is_group_start : ℕ → Bool
is_group_start index = index == 4 || index == 6 || index == 8 || index == 10

-- The low half of the byte is clear when its second digit comes, so `|` adds it.
unfoldable pub with_nibble : List ℕ → ℕ → ℕ → List ℕ
with_nibble bytes nibble_index nibble =
    let byte_index = nibble_index / 2 in
    if nibble_index % 2 == 0
    then set bytes byte_index (nibble * 16 % 256)
    else set bytes byte_index ((get_or bytes byte_index 0 + nibble) % 256)

-- A character that is no digit ends `parse`.
unfoldable pub read_nibble {ℓ} : {A : Type ℓ} → Option ℕ → (ℕ → Option A) → Option A
read_nibble none next = none
read_nibble (some nibble) next = next nibble

-- The loop of `parse`, with the bytes and `nibble_index` at its end.
unfoldable pub parse_loop : List ℕ → ℕ → List ℕ → ℕ → Option (List ℕ × ℕ)
parse_loop [] index bytes nibble_index = some (bytes, nibble_index)
parse_loop (c ∷ cs) index bytes nibble_index = elim (is_hyphen_index index) [
  | true ↦ parse_loop cs (index + 1) bytes nibble_index
  | false ↦
      read_nibble (hex_value c) λ nibble.
        parse_loop cs (index + 1) (with_nibble bytes nibble_index nibble) (nibble_index + 1)
]

unfoldable pub parsed : Option (List ℕ × ℕ) → Option Uuid
parsed none = none
parsed (some (bytes, nibble_index)) =
    if not (nibble_index == 32) then none else some (record { bytes = bytes })

unfoldable pub parse : List ℕ → Option Uuid
parse value =
    if not (length value == 36)
      || not (get_or value 8 0 == hyphen)
      || not (get_or value 13 0 == hyphen)
      || not (get_or value 18 0 == hyphen)
      || not (get_or value 23 0 == hyphen)
    then none
    else parsed (parse_loop value 0 (replicate 16 0) 0)

-- "0123456789abcdef"
abbrev pub hex_digits : List ℕ
hex_digits =
    0x30 ∷ 0x31 ∷ 0x32 ∷ 0x33 ∷ 0x34 ∷ 0x35 ∷ 0x36 ∷ 0x37 ∷ 0x38 ∷ 0x39 ∷ 0x61 ∷ 0x62 ∷ 0x63 ∷ 0x64
    ∷ 0x65 ∷ 0x66 ∷ []

unfoldable pub hex_digit : ℕ → ℕ
hex_digit nibble = get_or hex_digits nibble 0

unfoldable pub to_string_loop : List ℕ → ℕ → List ℕ
to_string_loop [] index = []
to_string_loop (b ∷ bs) index =
    (if is_group_start index then hyphen ∷ [] else [])
    ++ (hex_digit (b / 16 % 16) ∷ hex_digit (b % 16) ∷ to_string_loop bs (index + 1))

unfoldable pub to_string : Uuid → List ℕ
to_string u = to_string_loop u.bytes 0

-- The order of `std::array`.
pub bytes_less : List ℕ → List ℕ → Bool
bytes_less left [] = false
bytes_less [] (r ∷ right) = true
bytes_less (l ∷ left) (r ∷ right) = ltb l r || (not (ltb r l) && bytes_less left right)

pub uuid_less : Uuid → Uuid → Bool
unfolding bytes_less
uuid_less left right = bytes_less left.bytes right.bytes

pub hash_bytes : ℕ → List ℕ → ℕ
hash_bytes hash [] = hash
hash_bytes hash (byte ∷ bytes) = hash_bytes (bit_xor hash byte * 1099511628211 % 2 ^ 64) bytes

pub uuid_hash : Uuid → ℕ
unfolding hash_bytes
uuid_hash value = hash_bytes 14695981039346656037 value.bytes
