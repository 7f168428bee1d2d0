-- ===== src/Ruleset/Codec/RoundTrip.antt =====
-- A compiled rule set written by `serialize` of compiler.rs and read by `from_bytes` of loader.rs.
use model_lib.Prelude.{
  ℕ, ◌%◌, ◌^◌, ◌≤◌, ◌<◌, ◌≡◌, refl, sym, ap, ◌∙◌, arith, Bytes, bytes_eq, ok, ◌>>=◌, List, [], ◌∷◌,
  ◌++◌, append_assoc, length, All,
}
use model_lib.Prelude.Words.{le_bytes, of_le_bytes-le_bytes}
use model_lib.Ruleset.Format.{
  domain_fst, domain_suffix_fst, domain_keyword, domain_regex, ip_cidr_v4, ip_cidr_v6, port, magic,
  version,
}
use model_lib.Ruleset.Fst.{FstCrate}
use model_lib.Ruleset.Loader.{
  Ipv6Addr, Ipv4Addr, LoadedRuleSet, default, load_sections, from_bytes, store_section,
}
use model_lib.Ruleset.Compiler.{CompiledRuleSet}
use model_lib.Ruleset.Compiler.Encode.{
  entry_count_for, Section, header, all_sections, keep_sections, write_sections, serialize,
  build_domain_fst, build_suffix_fst, encode_strings, encode_ipv4_cidrs, encode_ipv6_cidrs,
  encode_ports,
}
use model_lib.Ruleset.Codec.Strings.{IsShort, decode_strings-encode_strings}
use model_lib.Ruleset.Codec.Entries.{
  IsIpv4, IsIpv6, IsPortRange, decode_ipv4_cidrs-encode, decode_ipv6_cidrs-encode,
  decode_ports-encode,
}
use model_lib.Ruleset.Codec.Sections.{
  IsSmall, read_exact-append, store_all, load_sections-write_sections, store_all-keep_sections,
  keep_sections-IsSmall,
}

-- Strings that one length byte can announce, and addresses and ports of their width.
pub record IsWritable (c : CompiledRuleSet) : Type 0 where
  pub keywords : All IsShort c.domain_keywords
  pub regexes : All IsShort c.domain_regexes
  pub ipv4 : All IsIpv4 c.ipv4_cidrs
  pub ipv6 : All IsIpv6 c.ipv6_cidrs
  pub port_ranges : All IsPortRange c.ports

-- The header, with what the loader reads behind it.
from_bytes-header :
    (n : ℕ) (body : Bytes)
    → n < 2 ^ 32
    → from_bytes (header n ++ body) ≡ load_sections n body default
from_bytes-header n body h =
    let count : n % 2 ^ 32 ≡ n = omega arith in
    rw count (
      unfold from_bytes bytes_eq in
      rw (
        read_exact-append
            (magic ++ (version ∷ 0x00 ∷ (le_bytes 4 n ++ (0x00 ∷ 0x00 ∷ 0x00 ∷ 0x00 ∷ [])))) body,
        of_le_bytes-le_bytes 4 n h,
      ))

length-keep_sections : (ss : List Section) → length (keep_sections ss) ≤ length ss
unfolding keep_sections
length-keep_sections [] = omega arith
length-keep_sections ((t, []) ∷ ss) = omega (arith, length-keep_sections ss)
length-keep_sections ((t, b ∷ bs) ∷ ss) = omega (arith, length-keep_sections ss)

length-all_sections : (db sb : Bytes) (c : CompiledRuleSet) → length (all_sections db sb c) ≡ 7
unfolding all_sections
length-all_sections db sb c = refl

-- What the loader makes of a compiled rule set whose two FSTs are these bytes.
abbrev pub loaded_form : Bytes → Bytes → CompiledRuleSet → LoadedRuleSet
loaded_form domain_bytes suffix_bytes c = record {
  domains = [];
  domain_suffixes = [];
  domain_fst = domain_bytes;
  domain_suffix_fst = suffix_bytes;
  domain_keywords = c.domain_keywords;
  domain_regexes = c.domain_regexes;
  ipv4_cidrs = c.ipv4_cidrs;
  ipv6_cidrs = c.ipv6_cidrs;
  ports = c.ports;
}

encode_strings-nil : (xs : List Bytes) → encode_strings xs ≡ [] → [] ≡ xs
unfolding encode_strings
encode_strings-nil [] h = refl
encode_strings-nil (x ∷ xs) h = cc

encode_ipv4_cidrs-nil : (xs : List (Ipv4Addr × ℕ)) → encode_ipv4_cidrs xs ≡ [] → [] ≡ xs
unfolding encode_ipv4_cidrs
encode_ipv4_cidrs-nil [] h = refl
encode_ipv4_cidrs-nil (x ∷ xs) h = cc

encode_ipv6_cidrs-nil : (xs : List (Ipv6Addr × ℕ)) → encode_ipv6_cidrs xs ≡ [] → [] ≡ xs
unfolding encode_ipv6_cidrs
encode_ipv6_cidrs-nil [] h = refl
encode_ipv6_cidrs-nil (x ∷ xs) h = cc

encode_ports-nil : (xs : List (ℕ × ℕ)) → encode_ports xs ≡ [] → [] ≡ xs
unfolding encode_ports
encode_ports-nil [] h = refl
encode_ports-nil (x ∷ xs) h = cc

module _ (out : LoadedRuleSet) where
  store_keywords :
      (n : ℕ) (xs : List Bytes)
      → All IsShort xs
      → store_section domain_keyword n (encode_strings xs) out
        ≡ ok (record out { domain_keywords = xs })
  unfolding store_section
  store_keywords n xs h = rw (decode_strings-encode_strings xs n h)

  store_regexes :
      (n : ℕ) (xs : List Bytes)
      → All IsShort xs
      → store_section domain_regex n (encode_strings xs) out
        ≡ ok (record out { domain_regexes = xs })
  unfolding store_section
  store_regexes n xs h = rw (decode_strings-encode_strings xs n h)

  store_ipv4 :
      (xs : List (Ipv4Addr × ℕ))
      → All IsIpv4 xs
      → store_section ip_cidr_v4
          (entry_count_for ip_cidr_v4 (encode_ipv4_cidrs xs))
          (encode_ipv4_cidrs xs)
          out
        ≡ ok (record out { ipv4_cidrs = xs })
  unfolding store_section
  store_ipv4 xs h = rw (decode_ipv4_cidrs-encode xs h)

  store_ipv6 :
      (xs : List (Ipv6Addr × ℕ))
      → All IsIpv6 xs
      → store_section ip_cidr_v6
          (entry_count_for ip_cidr_v6 (encode_ipv6_cidrs xs))
          (encode_ipv6_cidrs xs)
          out
        ≡ ok (record out { ipv6_cidrs = xs })
  unfolding store_section
  store_ipv6 xs h = rw (decode_ipv6_cidrs-encode xs h)

  store_ports :
      (xs : List (ℕ × ℕ))
      → All IsPortRange xs
      → store_section port (entry_count_for port (encode_ports xs)) (encode_ports xs) out
        ≡ ok (record out { ports = xs })
  unfolding store_section
  store_ports xs h = rw (decode_ports-encode xs h)

store_all-all_sections :
    (c : CompiledRuleSet) (domain_bytes suffix_bytes : Bytes)
    → IsWritable c
    → store_all (keep_sections (all_sections domain_bytes suffix_bytes c)) default
      ≡ ok (loaded_form domain_bytes suffix_bytes c)
unfolding all_sections
store_all-all_sections c db sb w =
    let o1 : LoadedRuleSet = record default { domain_fst = db } in
    let o2 : LoadedRuleSet = record o1 { domain_suffix_fst = sb } in
    let o3 : LoadedRuleSet = record o2 { domain_keywords = c.domain_keywords } in
    let o4 : LoadedRuleSet = record o3 { domain_regexes = c.domain_regexes } in
    let o5 : LoadedRuleSet = record o4 { ipv4_cidrs = c.ipv4_cidrs } in
    let o6 : LoadedRuleSet = record o5 { ipv6_cidrs = c.ipv6_cidrs } in
    let o7 : LoadedRuleSet = record o6 { ports = c.ports } in
    store_all-keep_sections domain_fst db _ default o1 (unfold store_section in refl)
      (λ e. ap (λ v. record default { domain_fst = v }) (sym e))
    ∙ store_all-keep_sections domain_suffix_fst sb _ o1 o2 (unfold store_section in refl)
        (λ e. ap (λ v. record o1 { domain_suffix_fst = v }) (sym e))
    ∙ store_all-keep_sections domain_keyword _ _ o2 o3 (store_keywords o2 _ _ w.keywords)
        (λ e. ap (λ v. record o2 { domain_keywords = v }) (encode_strings-nil _ e))
    ∙ store_all-keep_sections domain_regex _ _ o3 o4 (store_regexes o3 _ _ w.regexes)
        (λ e. ap (λ v. record o3 { domain_regexes = v }) (encode_strings-nil _ e))
    ∙ store_all-keep_sections ip_cidr_v4 _ _ o4 o5 (store_ipv4 o4 _ w.ipv4)
        (λ e. ap (λ v. record o4 { ipv4_cidrs = v }) (encode_ipv4_cidrs-nil _ e))
    ∙ store_all-keep_sections ip_cidr_v6 _ _ o5 o6 (store_ipv6 o5 _ w.ipv6)
        (λ e. ap (λ v. record o5 { ipv6_cidrs = v }) (encode_ipv6_cidrs-nil _ e))
    ∙ store_all-keep_sections port _ _ o6 o7 (store_ports o6 _ w.port_ranges)
        (λ e. ap (λ v. record o6 { ports = v }) (encode_ports-nil _ e))
    ∙ (unfold store_all keep_sections in refl)

-- A rule set that `serialize` writes is read back with every list in place and the two FSTs as
-- they were built, also where other bytes follow the file. The strings have less than 256 bytes,
-- addresses and ports have their width, and no section has 2 ^ 32 bytes or more.
pub from_bytes-serialize :
    (fst : FstCrate) (c : CompiledRuleSet) (domain_bytes suffix_bytes rest : Bytes)
    → IsWritable c
    → All IsSmall (all_sections domain_bytes suffix_bytes c)
    → build_domain_fst fst c.domains ≡ ok domain_bytes
    → build_suffix_fst fst c.domain_suffixes ≡ ok suffix_bytes
    → (serialize fst c >>= λ file. from_bytes (file ++ rest))
      ≡ ok (loaded_form domain_bytes suffix_bytes c)
unfolding serialize
from_bytes-serialize fst c db sb rest w small domains suffixes =
    let ss : List Section = keep_sections (all_sections db sb c) in
    let few : length ss < 2 ^ 32 =
      omega (arith, length-keep_sections (all_sections db sb c), length-all_sections db sb c) in
    rw (domains, suffixes)
      (ap from_bytes (append_assoc (header (length ss)) (write_sections ss) rest)
        ∙ from_bytes-header (length ss) (write_sections ss ++ rest) few
        ∙ load_sections-write_sections ss rest default (keep_sections-IsSmall _ small)
        ∙ store_all-all_sections c db sb w)
