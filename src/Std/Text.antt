-- ===== src/Std/Text.antt =====
-- `str` methods of Rust's standard library. A string is the list of its UTF-8 bytes.
use model_lib.Prelude.{
  ℕ, zero, suc, ◌+◌, Bytes, Bool, ◌&&◌, ◌||◌, Option, none, some, [], ◌∷◌, map, reverse, any, leb,
  ◌==◌, if◌then◌else◌,
}

-- How many bytes the white space has that a string begins with, or 0: U+0009 to U+000D, U+0020,
-- U+0085, U+00A0, U+1680, U+2000 to U+200A, U+2028, U+2029, U+202F, U+205F and U+3000.
abbrev is_blank : ℕ → Bool
is_blank b = (leb 0x09 b && leb b 0x0d) || (b == 0x20)

abbrev is_blank2 : ℕ → ℕ → Bool
is_blank2 a b = (a == 0xc2) && ((b == 0x85) || (b == 0xa0))

abbrev is_blank_80 : ℕ → Bool
is_blank_80 c = (leb 0x80 c && leb c 0x8a) || ((c == 0xa8) || ((c == 0xa9) || (c == 0xaf)))

abbrev is_blank3 : ℕ → ℕ → ℕ → Bool
is_blank3 a b c =
    ((a == 0xe1) && ((b == 0x9a) && (c == 0x80)))
    || (((a == 0xe2) && (((b == 0x80) && is_blank_80 c) || ((b == 0x81) && (c == 0x9f))))
        || ((a == 0xe3) && ((b == 0x80) && (c == 0x80))))

abbrev blank_front : Bytes → ℕ
blank_front [] = 0
blank_front (a ∷ []) = if is_blank a then 1 else 0
blank_front (a ∷ (b ∷ [])) = if is_blank a then 1 else if is_blank2 a b then 2 else 0
blank_front (a ∷ (b ∷ (c ∷ s))) =
    if is_blank a then 1 else if is_blank2 a b then 2 else if is_blank3 a b c then 3 else 0

-- The same on a reversed string, for the end.
abbrev blank_back : Bytes → ℕ
blank_back [] = 0
blank_back (a ∷ []) = if is_blank a then 1 else 0
blank_back (a ∷ (b ∷ [])) = if is_blank a then 1 else if is_blank2 b a then 2 else 0
blank_back (a ∷ (b ∷ (c ∷ s))) =
    if is_blank a then 1 else if is_blank2 b a then 2 else if is_blank3 c b a then 3 else 0

-- `skip` bytes of a white space are still to be passed.
abbrev strip : (Bytes → ℕ) → ℕ → Bytes → Bytes
strip blank skip [] = []
strip blank (suc skip) (b ∷ s) = strip blank skip s
strip blank zero (b ∷ s) = stop (blank (b ∷ s)) (λ n. strip blank n s) (b ∷ s)
  where
    stop : ℕ → (ℕ → Bytes) → Bytes → Bytes
    stop zero more here = here
    stop (suc n) more here = more n

unfoldable pub trim : Bytes → Bytes
trim s = reverse (strip blank_back 0 (reverse (strip blank_front 0 s)))

-- `split_once` at one ASCII byte
unfoldable pub split_once : ℕ → Bytes → Option (Bytes × Bytes)
split_once sep [] = none
split_once sep (b ∷ s) =
    let rest = split_once sep s in
    if b == sep then some ([], s) else elim rest [ none ↦ none | some p ↦ some (b ∷ p.0, p.1) ]

-- `contains` with one ASCII byte
abbrev pub has_byte : ℕ → Bytes → Bool
has_byte c s = any (λ b. b == c) s

-- `u8::to_ascii_lowercase`, and the same on a string
abbrev pub is_ascii_uppercase : ℕ → Bool
is_ascii_uppercase b = leb b'A' b && leb b b'Z'

unfoldable pub to_ascii_lowercase : Bytes → Bytes
to_ascii_lowercase = map (λ b. if is_ascii_uppercase b then b + 32 else b)
