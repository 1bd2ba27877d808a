-- ===== src/Protocol/FrameCodec/Layout.antt =====
-- Where the bytes of a frame stand: what the writes of `encode_frame` amount to.
use lora_messenger.Common.{
  ℕ, ◌%◌, ◌≡◌, refl, [], ◌∷◌, ◌++◌, length, replicate, overwrite_all, length-replicate, arith,
}
use lora_messenger.Words.Network.{write_uint}
use lora_messenger.Protocol.Limits.{Bytes}
use lora_messenger.Protocol.FrameCodec.{DataFrame, filled_frame}

abbrev pub Eight : Bytes → Type 0
Eight xs =
    (a : ℕ) × (b : ℕ) × (c : ℕ) × (d : ℕ) × (e : ℕ) × (f : ℕ) × (g : ℕ) × (h : ℕ) × (xs
      ≡ a ∷ b ∷ c ∷ d ∷ e ∷ f ∷ g ∷ h ∷ [])

pub eight : (xs : Bytes) → length xs ≡ 8 → Eight xs
eight (a ∷ b ∷ c ∷ d ∷ e ∷ f ∷ g ∷ h ∷ []) p = (a, b, c, d, e, f, g, h, refl)
eight _ p = absurd (omega arith)

abbrev pub Four : Bytes → Type 0
Four xs = (a : ℕ) × (b : ℕ) × (c : ℕ) × (d : ℕ) × (xs ≡ a ∷ b ∷ c ∷ d ∷ [])

pub four : (xs : Bytes) → length xs ≡ 4 → Four xs
four (a ∷ b ∷ c ∷ d ∷ []) p = (a, b, c, d, refl)
four _ p = absurd (omega arith)

-- The 24 bytes before the checksum.
abbrev pub header : DataFrame → Bytes
header frame =
    0x4c
    ∷ 0x4d
    ∷ 0x10
    ∷ (frame.tag
        ++ (write_uint 8 frame.sender_sequence
            ++ (frame.fragment_index
                ∷ frame.fragment_count
                ∷ (write_uint 2 frame.total_length ++ ((length frame.payload % 256) ∷ [])))))

pub filled_frame-header :
    (frame : DataFrame)
    → length frame.tag ≡ 8
    → filled_frame frame ≡ header frame ++ (0 ∷ 0 ∷ 0 ∷ 0 ∷ frame.payload)
unfolding filled_frame write_uint
filled_frame-header frame h =
    let (a, b, c, d, e, f, g, i, p) = eight frame.tag h in
    let q =
      overwrite_all (replicate (length frame.payload) 0) frame.payload
        (length-replicate (length frame.payload) 0) in
    rw (p, q)
