-- ===== src/Ruleset/Codec/Strings.antt =====
-- Length-prefixed strings: `encode_strings` of compiler.rs, `decode_strings` of loader.rs.
use model_lib.Prelude.{
  Result, ℕ, zero, suc, ◌+◌, ◌%◌, ◌≤◌, ◌<◌, ◌≡◌, refl, ap, subst, ◌∙◌, arith, Bytes, Bool, true,
  false, not, ok, ◌>>=◌, >>=-eq-ok, refuse_if-eq-ok, List, [], ◌∷◌, ◌++◌, length, length-append,
  take, drop, take-append, take-append-drop, length-take, ltb, All, is_utf8,
}
use model_lib.Prelude.Words.{IsBytes}
use model_lib.Ruleset.Error.{RuleSetError}
use model_lib.Ruleset.Loader.{decode_strings_from, decode_strings}
use model_lib.Ruleset.Compiler.Encode.{encode_strings, count_strings}

-- A string that one length byte can announce.
pub record IsShort (s : Bytes) : Type 0 where
  pub length_lt : length s < 256
  pub utf8 : is_utf8 s ≡ true

ltb-false : (a b : ℕ) → b ≤ a → ltb a b ≡ false
ltb-false a b h = ground arith

decode_strings_from_skip :
    (len i : ℕ) (s rest : Bytes)
    → decode_strings_from len i (length s) (s ++ rest)
      ≡ decode_strings_from len (i + length s) 0 rest
unfolding decode_strings_from
decode_strings_from_skip len i [] rest = ap (λ k. decode_strings_from len k 0 rest) (omega arith)
decode_strings_from_skip len i (b ∷ s) rest =
    decode_strings_from_skip len (i + 1) s rest
    ∙ ap (λ k. decode_strings_from len k 0 rest) (omega arith)

-- One round of the loop reads one entry.
decode_strings_from_step :
    (len i : ℕ) (s rest : Bytes)
    → IsShort s
    → i + 1 + length s ≤ len
    → decode_strings_from len i 0 ((length s % 256) ∷ (s ++ rest))
      ≡ (decode_strings_from len (i + 1 + length s) 0 rest >>= λ xs. ok (s ∷ xs))
decode_strings_from_step len i s rest short fits =
    let small : length s % 256 ≡ length s = omega (arith, short.length_lt) in
    rw small (
      unfold decode_strings_from in
      rw
        (
          take-append s rest,
          short.utf8,
          ltb-false len (i + 1) (omega arith),
          ltb-false len (i + 1 + length s) fits,
        )
        (ap (λ r. r >>= λ xs. ok (s ∷ xs)) (decode_strings_from_skip len (i + 1) s rest)))

decode_strings_from-encode_strings :
    (len i : ℕ) (xs : List Bytes)
    → All IsShort xs
    → i + length (encode_strings xs) ≤ len
    → decode_strings_from len i 0 (encode_strings xs) ≡ ok xs
unfolding encode_strings
decode_strings_from-encode_strings len i [] h fits = unfold decode_strings_from in refl
decode_strings_from-encode_strings len i (s ∷ xs) h fits =
    let size = length-append s (encode_strings xs) in
    decode_strings_from_step len i s (encode_strings xs) h.0 (omega (arith, size))
    ∙ rw (decode_strings_from-encode_strings len (i + 1 + length s) xs h.1 (omega (arith, size)))

-- Strings shorter than 256 bytes are read back as they were written; the announced count, which sizes a buffer, plays no part.
pub decode_strings-encode_strings :
    (xs : List Bytes) (n : ℕ) → All IsShort xs → decode_strings (encode_strings xs) n ≡ ok xs
unfolding decode_strings
decode_strings-encode_strings xs n h = decode_strings_from-encode_strings _ 0 xs h (omega arith)

-- What the loop has accepted it can write again, and each string is short.
record IsRead (bytes : Bytes) (xs : List Bytes) : Type 0 where
  again : encode_strings xs ≡ bytes
  short : All IsShort xs

not-eq-false : (b : Bool) → not b ≡ false → b ≡ true
not-eq-false true h = refl
not-eq-false false h = cc

ltb-eq-false : (a b : ℕ) → ltb a b ≡ false → b ≤ a
ltb-eq-false a b h = ground arith

-- What one successful round has checked.
record Round (len i n : ℕ) (bs : Bytes) (xs : List Bytes) : Type 0 where
  tail : List Bytes
  inside : i + 1 + n ≤ len
  utf8 : is_utf8 (take n bs) ≡ true
  later : decode_strings_from len (i + 1) n bs ≡ ok tail
  result : take n bs ∷ tail ≡ xs

ok-injective :
    {xs ys : List Bytes} (p : Result RuleSetError (List Bytes)) → p ≡ ok xs → p ≡ ok ys → xs ≡ ys
ok-injective p h k = cc

decode_strings_from-Round :
    (len i n : ℕ) (bs : Bytes) {xs : List Bytes}
    → decode_strings_from len i 0 (n ∷ bs) ≡ ok xs
    → Round len i n bs xs
unfolding decode_strings_from
decode_strings_from-Round len i n bs e =
    let (_, e1) = refuse_if-eq-ok _ _ _ e in
    let (c2, e2) = refuse_if-eq-ok _ _ _ e1 in
    let (c3, e3) = refuse_if-eq-ok _ _ _ e2 in
    let (ys, later, done) = >>=-eq-ok (decode_strings_from len (i + 1) n bs) _ e3 in
    record {
      tail = ys;
      inside = ltb-eq-false _ _ c2;
      utf8 = not-eq-false _ c3;
      later = later;
      result = ok-injective (ok _) refl done;
    }

IsRead-cons :
    (n : ℕ) (bs : Bytes) (ys : List Bytes)
    → n ≤ length bs
    → n < 256
    → is_utf8 (take n bs) ≡ true
    → IsRead (drop n bs) ys
    → IsRead (n ∷ bs) (take n bs ∷ ys)
unfolding encode_strings
IsRead-cons n bs ys fits small utf8 later =
    let size = length-take n bs fits in
    let byte : length (take n bs) % 256 ≡ n = omega (arith, size) in
    record {
      again = rw (byte, later.again, take-append-drop n bs);
      short = (record { length_lt = omega (arith, size); utf8 = utf8 }, later.short);
    }

decode_strings_from_sound :
    (bytes : Bytes) (len i skip : ℕ) {xs : List Bytes}
    → IsBytes bytes
    → i + length bytes ≡ len
    → skip ≤ length bytes
    → decode_strings_from len i skip bytes ≡ ok xs
    → IsRead (drop skip bytes) xs
decode_strings_from_sound [] len i zero {xs} hb hl hs e =
    let done : [] ≡ xs = ok-injective (ok _) refl (unfold decode_strings_from in e) in
    subst (IsRead []) done (record { again = unfold encode_strings in refl; short = tt })
decode_strings_from_sound [] len i (suc skip) hb hl hs e = absurd (omega arith)
decode_strings_from_sound (b ∷ bs) len i (suc skip) hb hl hs e =
    decode_strings_from_sound bs len (i + 1) skip hb.1 (omega arith) (omega arith)
      (unfold decode_strings_from in e)
decode_strings_from_sound (n ∷ bs) len i zero hb hl hs e =
    let r = decode_strings_from-Round len i n bs e in
    let fits : n ≤ length bs = omega (arith, r.inside, hl) in
    let ih = decode_strings_from_sound bs len (i + 1) n hb.1 (omega arith) fits r.later in
    subst (IsRead (n ∷ bs)) r.result (IsRead-cons n bs r.tail fits hb.0 r.utf8 ih)

-- Whatever `decode_strings` accepts is a list of short strings, and encodes to the same bytes.
pub decode_strings_sound :
    (bytes : Bytes) (n : ℕ) {xs : List Bytes}
    → IsBytes bytes
    → decode_strings bytes n ≡ ok xs
    → (encode_strings xs ≡ bytes) × All IsShort xs
unfolding decode_strings
decode_strings_sound bytes n hb e =
    let r = decode_strings_from_sound bytes _ 0 0 hb (omega arith) (omega arith) e in
    (r.again, r.short)

count_strings_skip : (s rest : Bytes) → count_strings (length s) (s ++ rest) ≡ count_strings 0 rest
unfolding count_strings
count_strings_skip [] rest = refl
count_strings_skip (b ∷ s) rest = count_strings_skip s rest

count_strings_step :
    (s rest : Bytes)
    → IsShort s
    → count_strings 0 ((length s % 256) ∷ (s ++ rest)) ≡ suc (count_strings 0 rest)
count_strings_step s rest short =
    let small : length s % 256 ≡ length s = omega (arith, short.length_lt) in
    rw small (unfold count_strings in ap suc (count_strings_skip s rest))

-- The scan of `entry_count_for` counts the strings that were written, if each has less than 256
-- bytes.
count_strings-encode_strings :
    (xs : List Bytes) → All IsShort xs → count_strings 0 (encode_strings xs) ≡ length xs
unfolding encode_strings
count_strings-encode_strings [] h = unfold count_strings in refl
count_strings-encode_strings (s ∷ xs) h =
    count_strings_step s (encode_strings xs) h.0 ∙ ap suc (count_strings-encode_strings xs h.1)
