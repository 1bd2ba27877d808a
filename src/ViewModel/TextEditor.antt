-- ===== src/ViewModel/TextEditor.antt =====
-- src/viewmodel/text_editor.h and text_editor.cpp: a line of UTF-8 text with a cursor. The loop of
-- `previous_boundary` recurses on the offset, that of `next_boundary` on the bytes that are left.
pub mod Boundaries
pub mod Refines
pub mod Keys
pub mod Texts
pub mod Tests
use lora_messenger.Common.{
  ℕ, zero, suc, ◌+◌, ◌-◌, ◌/◌, ◌%◌, Bool, true, false, not, ◌&&◌, ◌||◌, Option, none, some, List,
  [], ◌∷◌, ◌++◌, length, take, drop, get_or, ltb, leb, ◌==◌, nat_eq, if◌then◌else◌,
}
use lora_messenger.Core.Text.{is_valid_utf8}

-- `None` of the source's enumeration is `none` of an `Option`.
pub data EditorError : Type 0 where
  invalid_utf8 invalid_codepoint too_long : EditorError

pub record TextEditor : Type 0 where
  pub maximum_bytes : ℕ
  pub text : List ℕ
  pub cursor : ℕ

abbrev pub create_editor : ℕ → TextEditor
create_editor maximum_bytes = record { maximum_bytes = maximum_bytes; text = []; cursor = 0 }

-- `(value & 0xc0) == 0x80`: the two upper bits of a byte.
unfoldable pub is_continuation : ℕ → Bool
is_continuation value = value / 64 == 2

-- `encode_utf8`: the bytes written, none where it answers 0. `|` joins bits that do not meet.
unfoldable pub encoded_bytes : ℕ → List ℕ
encoded_bytes codepoint =
    if leb codepoint 0x7f
    then codepoint ∷ []
    else if leb codepoint 0x7ff
    then (0xc0 + codepoint / 64) ∷ (0x80 + codepoint % 64) ∷ []
    else if leb 0xd800 codepoint && leb codepoint 0xdfff
    then []
    else if leb codepoint 0xffff
    then (0xe0 + codepoint / 4096) ∷ (0x80 + codepoint / 64 % 64) ∷ (0x80 + codepoint % 64) ∷ []
    else if leb codepoint 0x10ffff
    then (0xf0 + codepoint / 262144)
      ∷ (0x80 + codepoint / 4096 % 64)
      ∷ (0x80 + codepoint / 64 % 64)
      ∷ (0x80 + codepoint % 64)
      ∷ []
    else []

unfoldable pub set_text : TextEditor → List ℕ → Option EditorError × TextEditor
set_text e value =
    if not (is_valid_utf8 value)
    then (some invalid_utf8, e)
    else (if ltb e.maximum_bytes (length value)
        then (some too_long, e)
        else (none, record e { text = value; cursor = length value }))

-- `text_.insert(cursor_, …)` and the step of the cursor behind it.
abbrev pub insert_bytes : TextEditor → List ℕ → TextEditor
insert_bytes e bytes = record e {
  text = take e.cursor e.text ++ (bytes ++ drop e.cursor e.text);
  cursor = e.cursor + length bytes;
}

unfoldable pub insert_codepoint : TextEditor → ℕ → Option EditorError × TextEditor
unfolding encoded_bytes
insert_codepoint e codepoint =
    let encoded = encoded_bytes codepoint in
    if length encoded == 0
    then (some invalid_codepoint, e)
    else (if ltb e.maximum_bytes (length e.text + length encoded)
        then (some too_long, e)
        else (none, insert_bytes e encoded))

unfoldable pub insert_utf8 : TextEditor → List ℕ → Option EditorError × TextEditor
insert_utf8 e value =
    if not (is_valid_utf8 value)
    then (some invalid_utf8, e)
    else (if ltb e.maximum_bytes (length e.text + length value)
        then (some too_long, e)
        else (none, insert_bytes e value))

unfoldable pub previous_loop : List ℕ → ℕ → ℕ
unfolding is_continuation
previous_loop text zero = 0
previous_loop text (suc offset) =
    let before = previous_loop text offset in
    if is_continuation (get_or text (suc offset) 0) then before else suc offset

unfoldable pub previous_boundary : List ℕ → ℕ → ℕ
unfolding previous_loop
previous_boundary text offset = previous_loop text (offset - 1)

-- `rest` are the bytes from the offset on.
unfoldable pub next_loop : List ℕ → ℕ → ℕ
unfolding is_continuation
next_loop [] offset = offset
next_loop (byte ∷ rest) offset =
    let after = next_loop rest (offset + 1) in if is_continuation byte then after else offset

unfoldable pub next_boundary : List ℕ → ℕ → ℕ
unfolding next_loop
next_boundary text offset = next_loop (drop (offset + 1) text) (offset + 1)

unfoldable pub move_left : TextEditor → Bool × TextEditor
unfolding previous_boundary
move_left e =
    if e.cursor == 0
    then (false, e)
    else (true, record e { cursor = previous_boundary e.text e.cursor })

unfoldable pub move_right : TextEditor → Bool × TextEditor
unfolding next_boundary
move_right e =
    if leb (length e.text) e.cursor
    then (false, e)
    else (true, record e { cursor = next_boundary e.text e.cursor })

-- `text_.erase(first, last - first)`
abbrev pub erase_bytes : List ℕ → ℕ → ℕ → List ℕ
erase_bytes text first last = take first text ++ drop last text

unfoldable pub backspace : TextEditor → Bool × TextEditor
unfolding previous_boundary
backspace e =
    let previous = previous_boundary e.text e.cursor in
    if e.cursor == 0
    then (false, e)
    else (true, record e { text = erase_bytes e.text previous e.cursor; cursor = previous })

unfoldable pub delete_forward : TextEditor → Bool × TextEditor
unfolding next_boundary
delete_forward e =
    let next = next_boundary e.text e.cursor in
    if leb (length e.text) e.cursor
    then (false, e)
    else (true, record e { text = erase_bytes e.text e.cursor next })

abbrev pub clear_editor : TextEditor → TextEditor
clear_editor e = record e { text = []; cursor = 0 }

abbrev pub remaining_bytes : TextEditor → ℕ
remaining_bytes e = e.maximum_bytes - length e.text
