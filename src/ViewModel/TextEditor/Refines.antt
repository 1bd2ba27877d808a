-- ===== src/ViewModel/TextEditor/Refines.antt =====
-- The editor as a list of code points with a cursor between them.
use lora_messenger.Common.{
  append_assoc, append-nil, ℕ, suc, ◌+◌, ◌<◌, ◌≤◌, ◌≡◌, refl, sym, ap, ap₂, ◌∙◌, false, List, [],
  ◌∷◌, ◌++◌, length, take, drop, ltb, leb, ◌==◌, nat_eq, All, All-append, arith, length-append,
  drop-append, take-append,
}
use lora_messenger.Core.Text.Utf8.{IsScalar, encode_utf8, encode_text}
use lora_messenger.ViewModel.TextEditor.{
  TextEditor, encoded_bytes, insert_bytes, insert_codepoint, previous_boundary, next_boundary,
  next_loop, move_left, move_right, erase_bytes, backspace, delete_forward,
}
use lora_messenger.ViewModel.TextEditor.Boundaries.{
  encode_utf8-IsCharacter, encoded_bytes-encode_utf8, previous_boundary-character,
  next_boundary-character, next_loop-encode_text,
}

-- The editor shows these code points, the cursor between the two lists.
pub record Shows (e : TextEditor) (before after : List ℕ) : Type 0 where
  pub scalars_before : All IsScalar before
  pub scalars_after : All IsScalar after
  pub text_same : e.text ≡ encode_text before ++ encode_text after
  pub cursor_same : e.cursor ≡ length (encode_text before)
  pub size_le : length e.text ≤ e.maximum_bytes

encode_text-append :
    (xs : List ℕ) (c : ℕ) → encode_text (xs ++ (c ∷ [])) ≡ encode_text xs ++ encode_utf8 c
unfolding encode_text
encode_text-append [] c = append-nil (encode_utf8 c)
encode_text-append (x ∷ xs) c =
    ap (λ (l : List ℕ). encode_utf8 x ++ l) (encode_text-append xs c)
    ∙ sym (append_assoc (encode_utf8 x) (encode_text xs) (encode_utf8 c))

All-last :
    (before : List ℕ) (c : ℕ) → All IsScalar (before ++ (c ∷ [])) → All IsScalar before × IsScalar c
All-last [] c h = (tt, h.0)
All-last (x ∷ xs) c h = let (all, last) = All-last xs c h.1 in ((h.0, all), last)

-- The bytes around a character: those before, its own, and those after.
record IsAround (text before after : List ℕ) (c : ℕ) : Type 0 where
  same : text ≡ before ++ (encode_utf8 c ++ after)
  back : previous_boundary text (length before + length (encode_utf8 c)) ≡ length before
  ahead :
      ((n : ℕ) → next_loop after n ≡ n)
      → next_boundary text (length before) ≡ length before + length (encode_utf8 c)
  erased :
      erase_bytes text (length before) (length before + length (encode_utf8 c)) ≡ before ++ after
  some_bytes : 0 < length (encode_utf8 c)

around :
    (before after : List ℕ) (c : ℕ)
    → IsScalar c
    → IsAround (before ++ (encode_utf8 c ++ after)) before after c
around before after c h =
    let v = encode_utf8-IsCharacter c h in
    let text = before ++ (encode_utf8 c ++ after) in
    let shape : text ≡ before ++ (v.first ∷ (v.rest ++ after)) =
      ap (λ (l : List ℕ). before ++ (l ++ after)) v.split in
    let size : length (encode_utf8 c) ≡ suc (length v.rest) = ap length v.split in
    record {
      same = refl;
      back =
          ap₂ (λ (t : List ℕ) (n : ℕ). previous_boundary t (length before + n)) shape size
          ∙ previous_boundary-character before v.first v.rest after v.leads v.continues;
      ahead = λ stop.
          ap (λ (t : List ℕ). next_boundary t (length before)) shape
          ∙ next_boundary-character before v.first v.rest after v.continues stop
          ∙ ap (λ (n : ℕ). length before + n) (sym size);
      erased =
          ap₂ (λ (l r : List ℕ). l ++ r) (take-append before (encode_utf8 c ++ after))
            (ap₂ (λ (n : ℕ) (t : List ℕ). drop n t) (sym (length-append before (encode_utf8 c)))
                (sym (append_assoc before (encode_utf8 c) after))
              ∙ drop-append (before ++ encode_utf8 c) after);
      some_bytes = omega (arith, size);
    }

-- The bytes of an editor whose cursor stands behind, or in front of, this code point.
record IsAt (e : TextEditor) (before after : List ℕ) (c : ℕ) : Type 0 where
  all_before : All IsScalar before
  all_after : All IsScalar after
  scalar : IsScalar c
  whole : e.text ≡ encode_text before ++ (encode_utf8 c ++ encode_text after)
  rim :
      IsAround
        (encode_text before ++ (encode_utf8 c ++ encode_text after))
        (encode_text before)
        (encode_text after)
        c
  size_max : length e.text ≤ e.maximum_bytes

module _ (e : TextEditor) (before after : List ℕ) (c : ℕ) where
  behind-IsAt :
      Shows e (before ++ (c ∷ [])) after
      → IsAt e before after c × (e.cursor ≡ length (encode_text before) + length (encode_utf8 c))
  behind-IsAt v =
      let (all, last) = All-last before c v.scalars_before in
      (
        record {
          all_before = all;
          all_after = v.scalars_after;
          scalar = last;
          whole =
              v.text_same
              ∙ ap (λ (l : List ℕ). l ++ encode_text after) (encode_text-append before c)
              ∙ append_assoc (encode_text before) (encode_utf8 c) (encode_text after);
          rim = around (encode_text before) (encode_text after) c last;
          size_max = v.size_le;
        },
        v.cursor_same
            ∙ ap length (encode_text-append before c)
            ∙ length-append (encode_text before) (encode_utf8 c),
      )

  front-IsAt : Shows e before (c ∷ after) → IsAt e before after c
  unfolding encode_text
  front-IsAt v = record {
    all_before = v.scalars_before;
    all_after = v.scalars_after.1;
    scalar = v.scalars_after.0;
    whole = v.text_same;
    rim = around (encode_text before) (encode_text after) c v.scalars_after.0;
    size_max = v.size_le;
  }

  -- What is left without the code point.
  erased-Shows :
      (v : IsAt e before after c) (first last : ℕ)
      → first ≡ length (encode_text before)
      → last ≡ length (encode_text before) + length (encode_utf8 c)
      → Shows (record e { text = erase_bytes e.text first last; cursor = first }) before after
  erased-Shows v first last f l =
      let gone : erase_bytes e.text first last ≡ encode_text before ++ encode_text after =
        ap (λ (t : List ℕ). erase_bytes t first last) v.whole
        ∙ ap₂ (erase_bytes (encode_text before ++ (encode_utf8 c ++ encode_text after))) f l
        ∙ v.rim.erased in
      record {
        scalars_before = v.all_before;
        scalars_after = v.all_after;
        text_same = gone;
        cursor_same = f;
        size_le = omega (
          arith,
          v.size_max,
          ap length gone,
          ap length v.whole,
          length-append (encode_text before) (encode_text after),
          length-append (encode_text before) (encode_utf8 c ++ encode_text after),
          length-append (encode_utf8 c) (encode_text after),
        );
      }

  pub move_left-Shows :
      Shows e (before ++ (c ∷ [])) after → Shows (move_left e).1 before (c ∷ after)
  unfolding move_left encode_text
  move_left-Shows v =
      let (w, size) = behind-IsAt v in
      let inside : (e.cursor == 0) ≡ false = ground (arith, size, w.rim.some_bytes) in
      simp inside (record {
        scalars_before = w.all_before;
        scalars_after = (w.scalar, w.all_after);
        text_same = w.whole;
        cursor_same = ap₂ previous_boundary w.whole size ∙ w.rim.back;
        size_le = v.size_le;
      })

  pub backspace-Shows : Shows e (before ++ (c ∷ [])) after → Shows (backspace e).1 before after
  unfolding backspace
  backspace-Shows v =
      let (w, size) = behind-IsAt v in
      let inside : (e.cursor == 0) ≡ false = ground (arith, size, w.rim.some_bytes) in
      simp inside (
        erased-Shows w (previous_boundary e.text e.cursor) e.cursor
          (ap₂ previous_boundary w.whole size ∙ w.rim.back) size)

  not_at_end :
      (w : IsAt e before after c)
      → e.cursor ≡ length (encode_text before)
      → leb (length e.text) e.cursor ≡ false
  not_at_end w size = ground (
    arith,
    size,
    w.rim.some_bytes,
    ap length w.whole,
    length-append (encode_text before) (encode_utf8 c ++ encode_text after),
    length-append (encode_utf8 c) (encode_text after),
  )

  next-IsAt :
      (w : IsAt e before after c)
      → e.cursor ≡ length (encode_text before)
      → next_boundary e.text e.cursor ≡ length (encode_text before) + length (encode_utf8 c)
  next-IsAt w size =
      ap₂ next_boundary w.whole size ∙ w.rim.ahead (next_loop-encode_text after w.all_after)

  pub move_right-Shows :
      Shows e before (c ∷ after) → Shows (move_right e).1 (before ++ (c ∷ [])) after
  unfolding move_right
  move_right-Shows v =
      let w = front-IsAt v in
      simp (not_at_end w v.cursor_same) (record {
        scalars_before = All-append IsScalar before (c ∷ []) w.all_before (w.scalar, tt);
        scalars_after = w.all_after;
        text_same =
            w.whole
            ∙ sym (
                ap (λ (l : List ℕ). l ++ encode_text after) (encode_text-append before c)
                ∙ append_assoc (encode_text before) (encode_utf8 c) (encode_text after));
        cursor_same =
            next-IsAt w v.cursor_same
            ∙ sym (
                ap length (encode_text-append before c)
                ∙ length-append (encode_text before) (encode_utf8 c));
        size_le = v.size_le;
      })

  pub delete_forward-Shows : Shows e before (c ∷ after) → Shows (delete_forward e).1 before after
  unfolding delete_forward
  delete_forward-Shows v =
      let w = front-IsAt v in
      simp (not_at_end w v.cursor_same) (
        erased-Shows w e.cursor (next_boundary e.text e.cursor) v.cursor_same
          (next-IsAt w v.cursor_same))

  pub insert_codepoint-Shows :
      Shows e before after
      → IsScalar c
      → length e.text + length (encode_utf8 c) ≤ e.maximum_bytes
      → Shows (insert_codepoint e c).1 (before ++ (c ∷ [])) after
  unfolding insert_codepoint
  insert_codepoint-Shows v scalar room =
      let own = encoded_bytes-encode_utf8 c scalar in
      let u = encode_utf8-IsCharacter c scalar in
      let written : (length (encoded_bytes c) == 0) ≡ false =
        ground (arith, ap length own, ap length u.split) in
      let fits : ltb e.maximum_bytes (length e.text + length (encoded_bytes c)) ≡ false =
        ground (arith, ap length own, room) in
      let front : take e.cursor e.text ≡ encode_text before =
        ap₂ take v.cursor_same v.text_same ∙ take-append (encode_text before) (encode_text after) in
      let back : drop e.cursor e.text ≡ encode_text after =
        ap₂ drop v.cursor_same v.text_same ∙ drop-append (encode_text before) (encode_text after) in
      let bytes = encode_text-append before c in
      let text : (insert_bytes e (encoded_bytes c)).text
          ≡ encode_text (before ++ (c ∷ [])) ++ encode_text after =
        ap₂ (λ (l r : List ℕ). l ++ r) front (ap₂ (λ (l r : List ℕ). l ++ r) own back)
        ∙ sym (
            ap (λ (l : List ℕ). l ++ encode_text after) bytes
            ∙ append_assoc (encode_text before) (encode_utf8 c) (encode_text after)) in
      simp (written, fits)
        (record {
          scalars_before = All-append IsScalar before (c ∷ []) v.scalars_before (scalar, tt);
          scalars_after = v.scalars_after;
          text_same = text;
          cursor_same = omega (
            arith,
            v.cursor_same,
            ap length own,
            ap length bytes,
            length-append (encode_text before) (encode_utf8 c),
          );
          size_le = omega (
            arith,
            room,
            ap length text,
            ap length bytes,
            ap length v.text_same,
            length-append (encode_text before) (encode_text after),
            length-append (encode_text before) (encode_utf8 c),
            length-append (encode_text (before ++ (c ∷ []))) (encode_text after),
          );
        })
