-- ===== src/Core/Text.antt =====
-- src/core/text.h and text.cpp: UTF-8 and the texts of users. A `std::string_view` is the list of its
-- bytes. The limits are those of src/core/limits.h.
pub mod Utf8
pub mod Users
pub mod Tests
use lora_messenger.Common.{
  ℕ, zero, suc, ◌+◌, ◌-◌, ◌*◌, ◌/◌, ◌%◌, Bool, true, false, not, ◌&&◌, ◌||◌, Option, none, some,
  List, [], ◌∷◌, length, ltb, leb, ◌==◌, nat_eq, if◌then◌else◌,
}
use lora_messenger.Core.Result.{Result, success, failure, ◌>>=◌, ◌>>◌, reject}

abbrev pub max_user_id_bytes : ℕ
max_user_id_bytes = 24

abbrev pub max_post_body_bytes : ℕ
max_post_body_bytes = 160

-- The bits of the code point in a first byte, and the number of bytes of the sequence.
pub first_byte : ℕ → Option (ℕ × ℕ)
first_byte first =
    if leb first 0x7f
    then some (first, 1)
    else if leb 0xc2 first && leb first 0xdf
    then some (first % 32, 2)
    else if leb 0xe0 first && leb first 0xef
    then some (first % 16, 3)
    else if leb 0xf0 first && leb first 0xf4
    then some (first % 8, 4)
    else none

-- The loop over the continuation bytes, for the number of them that is left: the code point, and what
-- follows it.
pub continuation : ℕ → ℕ → List ℕ → Option (ℕ × List ℕ)
continuation zero codepoint rest = some (codepoint, rest)
continuation (suc n) codepoint [] = none
continuation (suc n) codepoint (b ∷ rest) =
    let more = continuation n (codepoint * 64 + b % 64) rest in
    if not (b / 64 == 2) then none else more

pub is_rejected : ℕ → ℕ → Bool
is_rejected count codepoint =
    count == 2 && ltb codepoint 0x80
    || count == 3 && ltb codepoint 0x800
    || count == 4 && ltb codepoint 0x10000
    || leb 0xd800 codepoint && leb codepoint 0xdfff
    || ltb 0x10ffff codepoint

pub checked : ℕ → Option (ℕ × List ℕ) → Option (ℕ × List ℕ)
checked count none = none
checked count (some (codepoint, rest)) =
    if is_rejected count codepoint then none else some (codepoint, rest)

-- One round of the loop of `visit_utf8`, up to the call of the visitor.
pub next_codepoint : ℕ → List ℕ → Option (ℕ × List ℕ)
unfolding first_byte continuation is_rejected checked
next_codepoint first rest = elim (first_byte first) [
  | none ↦ none
  | some (bits, count) ↦
      if ltb (suc (length rest)) count
      then none
      else checked count (continuation (count - 1) bits rest)
]

-- The loop, with a fuel that its rounds use up. The visitor is a function on the state that it
-- captures; what it has captured when the loop fails is not looked at.
pub visit_loop {ℓ} : {S : Type ℓ} → (S → ℕ → S) → ℕ → S → List ℕ → Option S
unfolding next_codepoint
visit_loop visitor fuel state [] = some state
visit_loop visitor zero state (b ∷ rest) = none
visit_loop visitor (suc fuel) state (b ∷ rest) = elim (next_codepoint b rest) [
  | none ↦ none
  | some (codepoint, rest') ↦ visit_loop visitor fuel (visitor state codepoint) rest'
]

-- A round takes a byte at least, so as many rounds as there are bytes are enough.
pub visit_utf8 {ℓ} : {S : Type ℓ} → (S → ℕ → S) → S → List ℕ → Option S
unfolding visit_loop
visit_utf8 visitor state value = visit_loop visitor (length value) state value

-- The visitor that does nothing.
abbrev pub ignore : Unit {0} → ℕ → Unit {0}
ignore state codepoint = state

pub is_valid_utf8 : List ℕ → Bool
unfolding visit_utf8
is_valid_utf8 value = elim (visit_utf8 ignore tt value) [ none ↦ false | some _ ↦ true ]

pub is_whitespace : ℕ → Bool
is_whitespace c =
    leb 0x0009 c && leb c 0x000d
    || c == 0x0020
    || c == 0x0085
    || c == 0x00a0
    || c == 0x1680
    || leb 0x2000 c && leb c 0x200a
    || c == 0x2028
    || c == 0x2029
    || c == 0x202f
    || c == 0x205f
    || c == 0x3000

pub is_bidi_format : ℕ → Bool
is_bidi_format c =
    c == 0x061c
    || c == 0x200e
    || c == 0x200f
    || leb 0x202a c && leb c 0x202e
    || leb 0x2066 c && leb c 0x2069

pub is_unicode_line_separator : ℕ → Bool
is_unicode_line_separator c = c == 0x2028 || c == 0x2029

pub is_noncharacter : ℕ → Bool
is_noncharacter c = leb 0xfdd0 c && leb c 0xfdef || c % 65536 == 0xfffe || c % 65536 == 0xffff

pub is_control : ℕ → Bool
is_control c = leb c 0x1f || leb 0x7f c && leb c 0x9f

-- `None` of the source's enumeration is a success.
pub data TextError : Type 0 where
  empty too_long invalid_utf8 forbidden_character edge_whitespace : TextError

-- What the visitor of `validate_text` captures.
pub record Scan : Type 0 where
  pub forbidden : Bool
  pub has_non_whitespace : Bool
  pub has_codepoint : Bool
  pub first_codepoint : ℕ
  pub last_codepoint : ℕ

abbrev pub scan_start : Scan
scan_start = record {
  forbidden = false;
  has_non_whitespace = false;
  has_codepoint = false;
  first_codepoint = 0;
  last_codepoint = 0;
}

pub is_forbidden : Bool → ℕ → Bool
unfolding is_control is_unicode_line_separator is_bidi_format is_noncharacter
is_forbidden user_id c =
    let allowed_line_feed = not user_id && c == 0x000a in
    is_control c && not allowed_line_feed
    || is_unicode_line_separator c
    || is_bidi_format c
    || is_noncharacter c

pub scan : Bool → Scan → ℕ → Scan
unfolding is_forbidden is_whitespace
scan user_id s c = record {
  forbidden = if is_forbidden user_id c then true else s.forbidden;
  has_non_whitespace = s.has_non_whitespace || not (is_whitespace c);
  has_codepoint = true;
  first_codepoint = if not s.has_codepoint then c else s.first_codepoint;
  last_codepoint = c;
}

pub scanned : Option Scan → Result Scan TextError
scanned none = failure invalid_utf8
scanned (some s) = success s

pub validate_text : List ℕ → ℕ → Bool → Result (Unit {0}) TextError
unfolding scanned
validate_text value maximum_bytes user_id = do
  reject (length value == 0) empty
  reject (ltb maximum_bytes (length value)) too_long
  s ← scanned (visit_utf8 (scan user_id) scan_start value)
  reject s.forbidden forbidden_character
  reject (not s.has_non_whitespace) empty
  reject (user_id && (is_whitespace s.first_codepoint || is_whitespace s.last_codepoint))
      edge_whitespace

pub record UserId : Type 0 where
  pub value : List ℕ

pub record PostBody : Type 0 where
  pub value : List ℕ

pub create_user_id : List ℕ → Result UserId TextError
create_user_id value = do
  validate_text value max_user_id_bytes true
  success (record { value = value })

pub create_post_body : List ℕ → Result PostBody TextError
create_post_body value = do
  validate_text value max_post_body_bytes false
  success (record { value = value })
