-- ===== src/Ruleset/Codec/Sections.antt =====
-- One section, and a file of sections: `write_section` of compiler.rs against the loop of loader.rs.
use model_lib.Prelude.{
  ◌∙◌, append_assoc, ap, All, List, ℕ, zero, suc, ◌%◌, ◌^◌, ◌≤◌, ◌<◌, ◌≡◌, refl, arith, Bytes, some,
  Result, ok, ◌>>=◌, [], ◌∷◌, ◌++◌, length, take-append, drop-append, length-append, le→leb,
}
use model_lib.Prelude.Words.{le_bytes, of_le_bytes-le_bytes}
use model_lib.Ruleset.Error.{RuleSetError}
use model_lib.Ruleset.Format.{SectionType, ip_cidr_v4, ip_cidr_v6, port, as_u8, try_from-as_u8}
use model_lib.Ruleset.Loader.{
  load_sections, section_type, LoadedRuleSet, read_exact, store_section, load_section,
}
use model_lib.Ruleset.Compiler.Encode.{
  keep_sections, write_sections, Section, count_strings, entry_count_for, write_section,
}

pub read_exact-append : (xs rest : Bytes) → read_exact (length xs) (xs ++ rest) ≡ some (xs, rest)
unfolding read_exact
read_exact-append xs rest = rw (
  le→leb (length xs) (length (xs ++ rest)) (omega (arith, length-append xs rest)),
  take-append xs rest,
  drop-append xs rest,
)

count_strings-le : (bytes : Bytes) (skip : ℕ) → count_strings skip bytes ≤ length bytes
unfolding count_strings
count_strings-le [] skip = omega arith
count_strings-le (b ∷ bs) zero = omega (arith, count_strings-le bs b)
count_strings-le (b ∷ bs) (suc skip) = omega (arith, count_strings-le bs skip)

entry_count_for-le : (t : SectionType) (bytes : Bytes) → entry_count_for t bytes ≤ length bytes
unfolding entry_count_for
entry_count_for-le ip_cidr_v4 bytes = omega arith
entry_count_for-le ip_cidr_v6 bytes = omega arith
entry_count_for-le port bytes = omega arith
entry_count_for-le _ bytes = count_strings-le bytes 0

-- What the loop does with one section: it is stored, and the reader stands behind it.
abbrev after_section : Section → Bytes → LoadedRuleSet → Result RuleSetError (LoadedRuleSet × Bytes)
after_section (t, bytes) rest out =
    store_section t (entry_count_for t bytes) bytes out >>= λ out'. ok (out', rest)

abbrev section_head : SectionType → Bytes → Bytes
section_head t bytes = as_u8 t ∷ (le_bytes 4 (entry_count_for t bytes) ++ le_bytes 4 (length bytes))

write_section-head :
    (t : SectionType) (bytes rest : Bytes)
    → length bytes < 2 ^ 32
    → write_section (t, bytes) ++ rest ≡ section_head t bytes ++ (bytes ++ rest)
unfolding write_section
write_section-head t bytes rest fits =
    let count_fits = entry_count_for-le t bytes in
    let count : entry_count_for t bytes % 2 ^ 32 ≡ entry_count_for t bytes = omega arith in
    let size : length bytes % 2 ^ 32 ≡ length bytes = omega arith in rw (count, size)

section_type-as_u8 : (t : SectionType) → section_type (as_u8 t) ≡ ok t
unfolding section_type
section_type-as_u8 t = rw (try_from-as_u8 t)

load_section-write_section :
    (t : SectionType) (bytes rest : Bytes) (out : LoadedRuleSet)
    → length bytes < 2 ^ 32
    → load_section (write_section (t, bytes) ++ rest) out ≡ after_section (t, bytes) rest out
load_section-write_section t bytes rest out fits =
    let count_fits = entry_count_for-le t bytes in
    let counted = of_le_bytes-le_bytes 4 (entry_count_for t bytes) (omega arith) in
    let sized = of_le_bytes-le_bytes 4 (length bytes) (omega arith) in
    let got = read_exact-append (section_head t bytes) (bytes ++ rest) in
    rw (write_section-head t bytes rest fits) (
      unfold load_section in
      rw (got, counted, sized, section_type-as_u8 t, read_exact-append bytes rest) refl)

-- The sections in order, each stored in what the ones before it left.
unfoldable pub store_all : List Section → LoadedRuleSet → Result RuleSetError LoadedRuleSet
store_all [] out = ok out
store_all ((t, bytes) ∷ ss) out = do
  out' ← store_section t (entry_count_for t bytes) bytes out
  store_all ss out'

abbrev pub IsSmall : Section → Type 0
IsSmall s = length s.1 < 2 ^ 32

bind_after :
    (t : SectionType) (bytes rest : Bytes) (out : LoadedRuleSet)
    (k : LoadedRuleSet → Bytes → Result RuleSetError LoadedRuleSet)
    → (after_section (t, bytes) rest out >>= λ p. k p.0 p.1)
      ≡ (store_section t (entry_count_for t bytes) bytes out >>= λ out'. k out' rest)
bind_after t bytes rest out k = ground arith

load_sections_step :
    (t : SectionType) (bytes rest : Bytes) (n : ℕ) (out : LoadedRuleSet)
    → length bytes < 2 ^ 32
    → load_sections (suc n) (write_section (t, bytes) ++ rest) out
      ≡ (store_section t (entry_count_for t bytes) bytes out >>= λ out'. load_sections n rest out')
load_sections_step t bytes rest n out fits =
    unfold load_sections in
    ap (λ m. m >>= λ p. load_sections n p.1 p.0) (load_section-write_section t bytes rest out fits)
    ∙ bind_after t bytes rest out (λ o r. load_sections n r o)

-- Sections with fewer than 2 ^ 32 bytes each are read as they were written and stored in order,
-- and what follows the last one is not looked at.
pub load_sections-write_sections :
    (ss : List Section) (rest : Bytes) (out : LoadedRuleSet)
    → All IsSmall ss
    → load_sections (length ss) (write_sections ss ++ rest) out ≡ store_all ss out
unfolding store_all write_sections
load_sections-write_sections [] rest out h = unfold load_sections in refl
load_sections-write_sections ((t, bytes) ∷ ss) rest out h =
    ap (λ r. load_sections (suc (length ss)) r out)
      (append_assoc (write_section (t, bytes)) (write_sections ss) rest)
    ∙ load_sections_step t bytes (write_sections ss ++ rest) (length ss) out h.0
    ∙ (λ i. store_section t (entry_count_for t bytes) bytes out >>= λ out'.
        load_sections-write_sections ss rest out' h.1 i)

-- A section is kept unless it is empty, and storing an empty one would change nothing.
pub store_all-keep_sections :
    (t : SectionType) (bytes : Bytes) (ss : List Section) (out out' : LoadedRuleSet)
    → store_section t (entry_count_for t bytes) bytes out ≡ ok out'
    → (bytes ≡ [] → out ≡ out')
    → store_all (keep_sections ((t, bytes) ∷ ss)) out ≡ store_all (keep_sections ss) out'
unfolding keep_sections store_all
store_all-keep_sections t [] ss out out' stored same = ap (store_all (keep_sections ss)) (same refl)
store_all-keep_sections t (b ∷ bs) ss out out' stored same = rw stored

pub keep_sections-IsSmall : (ss : List Section) → All IsSmall ss → All IsSmall (keep_sections ss)
unfolding keep_sections
keep_sections-IsSmall [] h = tt
keep_sections-IsSmall ((t, []) ∷ ss) h = keep_sections-IsSmall ss h.1
keep_sections-IsSmall ((t, b ∷ bs) ∷ ss) h = (h.0, keep_sections-IsSmall ss h.1)
