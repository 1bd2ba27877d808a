-- ===== src/Core/Uuid/Tests.antt =====
-- Identifiers on which `uuid.cpp` is run.
use lora_messenger.Common.{ℕ, ◌≡◌, refl, true, none, some, drop, set, List, [], ◌∷◌}
use lora_messenger.Words.Network.{are_bytes-IsByte}
use lora_messenger.Core.Uuid.{Uuid, IsUuid, is_v4, generate_v4}
use lora_messenger.Core.Uuid.Form.{
  hyphen, hex_value, read_nibble, parse_loop, parsed, parse, to_string_loop, to_string,
}
use lora_messenger.Core.Uuid.RoundTrip.{parse-to_string}

abbrev random_bytes : List ℕ
random_bytes = 0xff ∷ 1 ∷ 2 ∷ 3 ∷ 4 ∷ 5 ∷ 0xf6 ∷ 7 ∷ 0xff ∷ 9 ∷ 10 ∷ 11 ∷ 12 ∷ 13 ∷ 14 ∷ 15 ∷ []

-- Two identifiers of version 4.
abbrev pub first_id : Uuid
first_id = record {
  bytes = 1 ∷ 1 ∷ 2 ∷ 3 ∷ 4 ∷ 5 ∷ 0x46 ∷ 7 ∷ 0x88 ∷ 9 ∷ 10 ∷ 11 ∷ 12 ∷ 13 ∷ 14 ∷ 15 ∷ [];
}

abbrev pub second_id : Uuid
second_id = record {
  bytes = 2 ∷ 1 ∷ 2 ∷ 3 ∷ 4 ∷ 5 ∷ 0x46 ∷ 7 ∷ 0x88 ∷ 9 ∷ 10 ∷ 11 ∷ 12 ∷ 13 ∷ 14 ∷ 15 ∷ [];
}

pub first_id-v4 : is_v4 first_id ≡ true
unfolding is_v4
first_id-v4 = refl

pub second_id-v4 : is_v4 second_id ≡ true
unfolding is_v4
second_id-v4 = refl

pub first_id-IsUuid : IsUuid first_id
first_id-IsUuid = record { size = refl; range = are_bytes-IsByte first_id.bytes refl }

pub second_id-IsUuid : IsUuid second_id
second_id-IsUuid = record { size = refl; range = are_bytes-IsByte second_id.bytes refl }

generated :
    generate_v4 (some random_bytes)
    ≡ some (record {
      bytes = 0xff ∷ 1 ∷ 2 ∷ 3 ∷ 4 ∷ 5 ∷ 0x46 ∷ 7 ∷ 0xbf ∷ 9 ∷ 10 ∷ 11 ∷ 12 ∷ 13 ∷ 14 ∷ 15 ∷ [];
    })
unfolding generate_v4
generated = refl

parse-to_string_example : parse (to_string first_id) ≡ some first_id
parse-to_string_example = parse-to_string first_id first_id-IsUuid

-- One character is missing, or one is no digit.
refuses_short : parse (drop 1 (to_string first_id)) ≡ none
unfolding parse to_string to_string_loop
refuses_short = refl

refuses_hyphen : parse (set (to_string first_id) 0 hyphen) ≡ none
unfolding parse parse_loop parsed read_nibble hex_value to_string to_string_loop
refuses_hyphen = refl
