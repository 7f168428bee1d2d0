-- ===== src/Ruleset/Compiler/Encode.antt =====
-- src/ruleset/compiler.rs: `serialize` and the encoders it calls. The writer is the bytes written.
use model_lib.Prelude.{
  ℕ, zero, suc, ◌/◌, ◌%◌, ◌^◌, Bytes, not, Result, ok, ◌>>=◌, ok_or, List, [], ◌∷◌, ◌++◌, map,
  length, is_empty, if◌then◌else◌, bytes_eq,
}
use model_lib.Prelude.Words.{le_bytes, be_bytes}
use model_lib.Ruleset.Compiler.{CompiledRuleSet}
use model_lib.Ruleset.Error.{RuleSetError, parse_error, fst_error}
use model_lib.Ruleset.Format.{
  SectionType, domain_keyword, domain_regex, domain_fst, domain_suffix_fst, ip_cidr_v4, ip_cidr_v6,
  port, as_u8, magic, version, ipv4_entry_len, ipv6_entry_len, port_entry_len,
}
use model_lib.Ruleset.Fst.{FstCrate, bytes_ltb, build}
use model_lib.Ruleset.Keys.{domain_to_fst_key, suffix_to_fst_key}
use model_lib.Ruleset.Loader.{Ipv4Addr, Ipv6Addr}

-- `s.len() as u8` keeps the low byte of the length.
unfoldable pub encode_strings : List Bytes → Bytes
encode_strings [] = []
encode_strings (s ∷ list) = (length s % 256) ∷ (s ++ encode_strings list)

unfoldable pub encode_ipv4_cidrs : List (Ipv4Addr × ℕ) → Bytes
encode_ipv4_cidrs [] = []
encode_ipv4_cidrs ((addr, prefix) ∷ list) = be_bytes 4 addr ++ (prefix ∷ encode_ipv4_cidrs list)

unfoldable pub encode_ipv6_cidrs : List (Ipv6Addr × ℕ) → Bytes
encode_ipv6_cidrs [] = []
encode_ipv6_cidrs ((addr, prefix) ∷ list) = be_bytes 16 addr ++ (prefix ∷ encode_ipv6_cidrs list)

unfoldable pub encode_ports : List (ℕ × ℕ) → Bytes
encode_ports [] = []
encode_ports ((start, end) ∷ list) = le_bytes 2 start ++ (le_bytes 2 end ++ encode_ports list)

-- The scan for length-prefixed strings; `skip` bytes of the current entry are still to be passed.
unfoldable pub count_strings : ℕ → Bytes → ℕ
count_strings skip [] = 0
count_strings (suc skip) (b ∷ bs) = count_strings skip bs
count_strings zero (n ∷ bs) = suc (count_strings n bs)

unfoldable pub entry_count_for : SectionType → Bytes → ℕ
unfolding count_strings
entry_count_for ip_cidr_v4 bytes = length bytes / ipv4_entry_len
entry_count_for ip_cidr_v6 bytes = length bytes / ipv6_entry_len
entry_count_for port bytes = length bytes / port_entry_len
entry_count_for _ bytes = count_strings 0 bytes

-- `sort_unstable` on strings: equal strings cannot be told apart, so the result is the sorted list.
unfoldable pub insert_key : Bytes → List Bytes → List Bytes
insert_key k [] = k ∷ []
insert_key k (j ∷ js) =
    let rest = insert_key k js in if bytes_ltb j k then j ∷ rest else k ∷ (j ∷ js)

unfoldable pub sort_keys : List Bytes → List Bytes
unfolding insert_key
sort_keys [] = []
sort_keys (k ∷ ks) = insert_key k (sort_keys ks)

-- `dedup`: a key that equals the one before it is dropped.
unfoldable pub dedup_after : Bytes → List Bytes → List Bytes
dedup_after last [] = []
dedup_after last (k ∷ ks) =
    let rest = dedup_after k ks in if bytes_eq k last then rest else k ∷ rest

unfoldable pub dedup : List Bytes → List Bytes
unfolding dedup_after
dedup [] = []
dedup (k ∷ ks) = k ∷ dedup_after k ks

module _ (fst : FstCrate) where
  -- The body that the two builders share: no bytes for an empty list.
  unfoldable pub build_fst : (Bytes → Bytes) → List Bytes → Result RuleSetError Bytes
  build_fst to_key [] = ok []
  build_fst to_key (d ∷ ds) =
      ok_or (build fst (dedup (sort_keys (map to_key (d ∷ ds))))) (parse_error 0 fst_error)

  unfoldable pub build_domain_fst : List Bytes → Result RuleSetError Bytes
  build_domain_fst = build_fst domain_to_fst_key

  unfoldable pub build_suffix_fst : List Bytes → Result RuleSetError Bytes
  build_suffix_fst = build_fst suffix_to_fst_key

abbrev pub Section : Type 0
Section = SectionType × Bytes

-- `filter(|(_, data)| !data.is_empty())`
unfoldable pub keep_sections : List Section → List Section
keep_sections [] = []
keep_sections ((t, bytes) ∷ ss) =
    if not (is_empty bytes) then (t, bytes) ∷ keep_sections ss else keep_sections ss

unfoldable pub write_section : Section → Bytes
write_section (t, bytes) =
    as_u8 t
    ∷ (le_bytes 4 (entry_count_for t bytes % 2 ^ 32)
        ++ (le_bytes 4 (length bytes % 2 ^ 32) ++ bytes))

unfoldable pub write_sections : List Section → Bytes
write_sections [] = []
write_sections (s ∷ ss) = write_section s ++ write_sections ss

abbrev pub header : ℕ → Bytes
header count =
    magic ++ (version ∷ 0x00 ∷ (le_bytes 4 (count % 2 ^ 32) ++ (0x00 ∷ 0x00 ∷ 0x00 ∷ 0x00 ∷ [])))

-- The array that `serialize` filters.
unfoldable pub all_sections : Bytes → Bytes → CompiledRuleSet → List Section
all_sections domain_bytes suffix_bytes c =
    (domain_fst, domain_bytes)
    ∷ (domain_suffix_fst, suffix_bytes)
    ∷ (domain_keyword, encode_strings c.domain_keywords)
    ∷ (domain_regex, encode_strings c.domain_regexes)
    ∷ (ip_cidr_v4, encode_ipv4_cidrs c.ipv4_cidrs)
    ∷ (ip_cidr_v6, encode_ipv6_cidrs c.ipv6_cidrs)
    ∷ (port, encode_ports c.ports)
    ∷ []

unfoldable pub serialize : FstCrate → CompiledRuleSet → Result RuleSetError Bytes
serialize fst c = do
  domain_bytes ← build_domain_fst fst c.domains
  suffix_bytes ← build_suffix_fst fst c.domain_suffixes
  let sections = keep_sections (all_sections domain_bytes suffix_bytes c)
  ok (header (length sections) ++ write_sections sections)
