-- ===== src/Outbound/Proto/Uuid.antt =====
-- `vless_parse_uuid` of src/outbound/proto.rs on a printed UUID.
use model_lib.Prelude.{
  ℕ, ◌+◌, ◌-◌, ◌*◌, ◌/◌, ◌%◌, ◌<◌, ◌≡◌, inl, inr, refl, sym, ap, ◌∙◌, arith, Bytes, true,
  Bool-cases, none, some, ok, List, [], ◌∷◌, ◌++◌, length, All, ltb, ◌==◌, if◌then◌else◌,
}
use model_lib.Prelude.Words.{IsByte, IsBytes}
use model_lib.Outbound.Proto.{hex_value, hex_digits, hex_pairs, vless_parse_uuid}

-- A digit in lower case.
abbrev pub hex_char : ℕ → ℕ
hex_char d = if ltb d 10 then b'0' + d else b'a' + (d - 10)

-- The bytes of an identifier in order, with whatever stands between them: `gaps` has what is
-- printed in front of each byte.
unfoldable pub print_hex : List Bytes → Bytes → Bytes
print_hex (gap ∷ gaps) (b ∷ bs) = gap ++ (hex_char (b / 16) ∷ hex_char (b % 16) ∷ print_hex gaps bs)
print_hex _ _ = []

-- No hexadecimal digit, a hyphen for one.
abbrev pub IsGap : Bytes → Type 0
IsGap = All (λ c. hex_value c ≡ none)

hex_value-hex_char : (d : ℕ) → d < 16 → hex_value (hex_char d) ≡ some d
unfolding hex_value
hex_value-hex_char d h = elim (Bool-cases (ltb d 10)) [
  | inl e ↦ ground (arith, e)
  | inr e ↦ ground (arith, e)
]

hex_digits-gap : (gap s : Bytes) → IsGap gap → hex_digits (gap ++ s) ≡ hex_digits s
unfolding hex_digits
hex_digits-gap [] s h = refl
hex_digits-gap (c ∷ gap) s h = ground (arith, h.0, hex_digits-gap gap s h.1)

hex_digits-byte :
    (b : ℕ) (s : Bytes)
    → IsByte b
    → hex_digits (hex_char (b / 16) ∷ hex_char (b % 16) ∷ s) ≡ b / 16 ∷ b % 16 ∷ hex_digits s
unfolding hex_digits
hex_digits-byte b s h =
    let high = hex_value-hex_char (b / 16) (omega arith) in
    let low = hex_value-hex_char (b % 16) (omega arith) in ground (arith, high, low)

nibbles : Bytes → List ℕ
nibbles [] = []
nibbles (b ∷ bs) = b / 16 ∷ b % 16 ∷ nibbles bs

hex_digits-print_hex :
    (gaps : List Bytes) (bs : Bytes)
    → All IsGap gaps
    → IsBytes bs
    → length gaps ≡ length bs
    → hex_digits (print_hex gaps bs) ≡ nibbles bs
unfolding print_hex nibbles hex_digits
hex_digits-print_hex [] [] hg hb e = refl
hex_digits-print_hex [] (b ∷ bs) hg hb e = absurd (omega arith)
hex_digits-print_hex (gap ∷ gaps) [] hg hb e = absurd (omega arith)
hex_digits-print_hex (gap ∷ gaps) (b ∷ bs) hg hb e =
    hex_digits-gap gap _ hg.0
    ∙ (hex_digits-byte b (print_hex gaps bs) hb.0
        ∙ ap (λ ds. b / 16 ∷ b % 16 ∷ ds) (hex_digits-print_hex gaps bs hg.1 hb.1 (omega arith)))

hex_pairs-nibbles :
    (bs : Bytes) → (hex_pairs (nibbles bs) ≡ bs) × (length (nibbles bs) ≡ 2 * length bs)
unfolding hex_pairs nibbles
hex_pairs-nibbles [] = (refl, refl)
hex_pairs-nibbles (b ∷ bs) =
    let (same, size) = hex_pairs-nibbles bs in
    (rw same (ap (λ x. x ∷ bs) (omega arith)), omega (arith, size))

-- A UUID of 16 bytes that is printed in hexadecimal, with hyphens or anything else that is no
-- hexadecimal digit in front of any of its bytes, is parsed to its bytes.
pub vless_parse_uuid-print_hex :
    (gaps : List Bytes) (uuid : Bytes)
    → All IsGap gaps
    → IsBytes uuid
    → length gaps ≡ 16
    → length uuid ≡ 16
    → vless_parse_uuid (print_hex gaps uuid) ≡ ok uuid
unfolding vless_parse_uuid
vless_parse_uuid-print_hex gaps uuid hg hb eg eu =
    let digits = hex_digits-print_hex gaps uuid hg hb (eg ∙ sym eu) in
    let (same, size) = hex_pairs-nibbles uuid in
    let full : (length (nibbles uuid) == 32) ≡ true = ground (arith, size, eu) in
    rw (digits, full, same) refl
