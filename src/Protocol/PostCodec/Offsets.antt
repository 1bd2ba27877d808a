-- ===== src/Protocol/PostCodec/Offsets.antt =====
-- Reading at an offset: a buffer cut where a field starts, and again where it ends.
use lora_messenger.Common.{
  ℕ, zero, suc, ◌+◌, ◌≤◌, ◌≡◌, refl, sym, ◌∙◌, [], ◌∷◌, ◌++◌, length, get_or, take, drop,
  take-append, drop-append, take-append-drop, arith,
}
use lora_messenger.Protocol.Limits.{Bytes}

drop-nil : (n : ℕ) → drop {A = ℕ} n [] ≡ []
drop-nil zero = refl
drop-nil (suc n) = refl

pub drop-drop : (n m k : ℕ) (xs : Bytes) → k ≡ n + m → drop m (drop n xs) ≡ drop k xs
drop-drop zero m k xs e = let p : k ≡ m = omega arith in rw p
drop-drop (suc n) m zero xs e = absurd (omega arith)
drop-drop (suc n) m (suc k) [] e = drop-nil m
drop-drop (suc n) m (suc k) (x ∷ xs) e = drop-drop n m k xs (omega arith)

pub get_or-drop : (n : ℕ) (xs : Bytes) (d : ℕ) → get_or xs n d ≡ get_or (drop n xs) 0 d
get_or-drop zero xs d = refl
get_or-drop (suc n) [] d = refl
get_or-drop (suc n) (x ∷ xs) d = get_or-drop n xs d

module _ (bytes field rest : Bytes) (offset n : ℕ) (at : drop offset bytes ≡ field ++ rest)
    (size : length field ≡ n) where
  -- The field that stands at an offset is what is read there.
  pub take_field : take n (drop offset bytes) ≡ field
  take_field = rw (at, ← size) (take-append field rest)

  -- And what follows it stands at its end.
  pub drop_field : (k : ℕ) → k ≡ offset + n → drop k bytes ≡ rest
  drop_field k e = sym (drop-drop offset n k bytes e) ∙ rw (at, ← size) (drop-append field rest)

-- A buffer from an offset on is a field of any size and what follows it.
pub cut :
    (bytes : Bytes) (offset n k : ℕ)
    → k ≡ offset + n
    → take n (drop offset bytes) ++ drop k bytes ≡ drop offset bytes
cut bytes offset n k e =
    rw (← drop-drop offset n k bytes e) (take-append-drop n (drop offset bytes))

pub get_or_cut :
    (bytes : Bytes) (n : ℕ)
    → suc n ≤ length bytes
    → get_or bytes n 0 ∷ drop (suc n) bytes ≡ drop n bytes
get_or_cut [] n h = absurd (omega arith)
get_or_cut (x ∷ xs) zero h = refl
get_or_cut (x ∷ xs) (suc n) h = get_or_cut xs n (omega arith)
