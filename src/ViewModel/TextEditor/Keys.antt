-- ===== src/ViewModel/TextEditor/Keys.antt =====
-- Keys, what they do to code points around a cursor, and that the editor does the same to its bytes.
use lora_messenger.Common.{
  ℕ, ◌+◌, ◌<◌, ◌≤◌, ◌≡◌, refl, sym, ap, ◌∙◌, subst, true, List, [], ◌∷◌, ◌++◌, length, ltb, leb,
  ◌==◌, nat_eq, arith, length-append,
}
use lora_messenger.Core.Text.Utf8.{IsScalar, encode_utf8, encode_text}
use lora_messenger.ViewModel.TextEditor.{
  TextEditor, encoded_bytes, insert_codepoint, move_left, move_right, backspace, delete_forward,
  clear_editor,
}
use lora_messenger.ViewModel.TextEditor.Boundaries.{encoded_bytes-encode_utf8}
use lora_messenger.ViewModel.TextEditor.Refines.{
  Shows, move_left-Shows, move_right-Shows, backspace-Shows, delete_forward-Shows,
  insert_codepoint-Shows,
}

pub data Key : Type 0 where
  left right back delete wipe : Key
  typed : ℕ → Key

abbrev pub press : TextEditor → Key → TextEditor
press e left = (move_left e).1
press e right = (move_right e).1
press e back = (backspace e).1
press e delete = (delete_forward e).1
press e wipe = clear_editor e
press e (typed c) = (insert_codepoint e c).1

-- What a key does to the code points before and after the cursor, in a line of so many bytes.
pub data Edits (maximum : ℕ) : Key → List ℕ → List ℕ → List ℕ → List ℕ → Type 0 where
  lefts :
      (before after : List ℕ) (c : ℕ)
      → Edits maximum left (before ++ (c ∷ [])) after before (c ∷ after)
  left_stays : (after : List ℕ) → Edits maximum left [] after [] after
  rights :
      (before after : List ℕ) (c : ℕ)
      → Edits maximum right before (c ∷ after) (before ++ (c ∷ [])) after
  right_stays : (before : List ℕ) → Edits maximum right before [] before []
  backs :
      (before after : List ℕ) (c : ℕ) → Edits maximum back (before ++ (c ∷ [])) after before after
  back_stays : (after : List ℕ) → Edits maximum back [] after [] after
  deletes : (before after : List ℕ) (c : ℕ) → Edits maximum delete before (c ∷ after) before after
  delete_stays : (before : List ℕ) → Edits maximum delete before [] before []
  wipes : (before after : List ℕ) → Edits maximum wipe before after [] []
  types :
      (before after : List ℕ) (c : ℕ)
      → IsScalar c
      → length (encode_text before) + length (encode_text after) + length (encode_utf8 c) ≤ maximum
      → Edits maximum (typed c) before after (before ++ (c ∷ [])) after
  type_stays :
      (before after : List ℕ) (c : ℕ)
      → IsScalar c
      → maximum < length (encode_text before) + length (encode_text after) + length (encode_utf8 c)
      → Edits maximum (typed c) before after before after

module _ (e : TextEditor) where
  shown_size :
      (before after : List ℕ)
      → Shows e before after
      → length e.text ≡ length (encode_text before) + length (encode_text after)
  shown_size before after v =
      ap length v.text_same ∙ length-append (encode_text before) (encode_text after)

  at_start : (after : List ℕ) → Shows e [] after → (e.cursor == 0) ≡ true
  unfolding encode_text
  at_start after v = ground (arith, v.cursor_same)

  at_end : (before : List ℕ) → Shows e before [] → leb (length e.text) e.cursor ≡ true
  unfolding encode_text
  at_end before v = ground (arith, v.cursor_same, shown_size before [] v)

  move_left-stays : (e.cursor == 0) ≡ true → (move_left e).1 ≡ e
  unfolding move_left
  move_left-stays h = ground (arith, h)

  backspace-stays : (e.cursor == 0) ≡ true → (backspace e).1 ≡ e
  unfolding backspace
  backspace-stays h = ground (arith, h)

  move_right-stays : leb (length e.text) e.cursor ≡ true → (move_right e).1 ≡ e
  unfolding move_right
  move_right-stays h = ground (arith, h)

  delete_forward-stays : leb (length e.text) e.cursor ≡ true → (delete_forward e).1 ≡ e
  unfolding delete_forward
  delete_forward-stays h = ground (arith, h)

  insert_codepoint-stays :
      (c : ℕ)
      → IsScalar c
      → e.maximum_bytes < length e.text + length (encode_utf8 c)
      → (insert_codepoint e c).1 ≡ e
  unfolding insert_codepoint
  insert_codepoint-stays c scalar full =
      let long : ltb e.maximum_bytes (length e.text + length (encoded_bytes c)) ≡ true =
        ground (arith, full, ap length (encoded_bytes-encode_utf8 c scalar)) in
      ground (arith, long)

  unchanged :
      {x : TextEditor} (before after : List ℕ) → x ≡ e → Shows e before after → Shows x before after
  unchanged before after same v = subst (λ (x : TextEditor). Shows x before after) (sym same) v

  -- The editor refines this: where a key has an effect on the code points, it has that effect on what
  -- the editor shows, at the ends of the text, in front of the byte limit and elsewhere.
  pub press-Shows :
      (key : Key) (before after before_next after_next : List ℕ)
      → Shows e before after
      → Edits e.maximum_bytes key before after before_next after_next
      → Shows (press e key) before_next after_next
  unfolding encode_text
  press-Shows key b a b_next a_next v (lefts before after c) = move_left-Shows e before after c v
  press-Shows key b a b_next a_next v (left_stays after) =
      unchanged [] after (move_left-stays (at_start after v)) v
  press-Shows key b a b_next a_next v (rights before after c) = move_right-Shows e before after c v
  press-Shows key b a b_next a_next v (right_stays before) =
      unchanged before [] (move_right-stays (at_end before v)) v
  press-Shows key b a b_next a_next v (backs before after c) = backspace-Shows e before after c v
  press-Shows key b a b_next a_next v (back_stays after) =
      unchanged [] after (backspace-stays (at_start after v)) v
  press-Shows key b a b_next a_next v (deletes before after c) =
      delete_forward-Shows e before after c v
  press-Shows key b a b_next a_next v (delete_stays before) =
      unchanged before [] (delete_forward-stays (at_end before v)) v
  press-Shows key b a b_next a_next v (wipes before after) = record {
    scalars_before = tt;
    scalars_after = tt;
    text_same = refl;
    cursor_same = refl;
    size_le = omega arith;
  }
  press-Shows key b a b_next a_next v (types before after c scalar room) =
      insert_codepoint-Shows e before after c v scalar
        (omega (arith, room, shown_size before after v))
  press-Shows key b a b_next a_next v (type_stays before after c scalar full) =
      unchanged before after
        (insert_codepoint-stays c scalar (omega (arith, full, shown_size before after v))) v
