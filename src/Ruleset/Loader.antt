-- ===== src/Ruleset/Loader.antt =====
-- src/ruleset/loader.rs: a rule set from its binary form. A reader is the bytes not yet read,
-- as `&[u8]` is in `from_bytes`; `usize` has 64 bits, so no sum or product here wraps.
use model_lib.Prelude.{
  ℕ, zero, suc, ◌+◌, ◌*◌, ◌/◌, Bytes, Result, ok, err, ◌>>=◌, ◌>>◌, refuse_if, ok_or, map_err, ◌==◌,
  ltb, leb, if◌then◌else◌, not, ◌&&◌, Option, none, some, List, [], ◌∷◌, map, length, take, drop,
  get_or, bytes_eq, is_utf8,
}
use model_lib.Prelude.Words.{of_le_bytes, of_be_bytes}
use model_lib.Ruleset.Error.{
  RuleSetError, bad_magic, unsupported_version, unknown_section, truncated, invalid_utf8, io,
}
use model_lib.Ruleset.Format.{
  SectionType, domain, domain_suffix, domain_keyword, domain_regex, domain_fst, domain_suffix_fst,
  ip_cidr_v4, ip_cidr_v6, port, try_from, magic, version, version_v1, header_len,
  section_header_len, ipv4_entry_len, ipv6_entry_len, port_entry_len,
}

-- An address is the number that its octets write, highest first.
abbrev pub Ipv4Addr : Type 0
Ipv4Addr = ℕ

abbrev pub Ipv6Addr : Type 0
Ipv6Addr = ℕ

pub record LoadedRuleSet : Type 0 where
  pub domains : List Bytes
  pub domain_suffixes : List Bytes
  pub domain_fst : Bytes
  pub domain_suffix_fst : Bytes
  pub domain_keywords : List Bytes
  pub domain_regexes : List Bytes
  pub ipv4_cidrs : List (Ipv4Addr × ℕ)
  pub ipv6_cidrs : List (Ipv6Addr × ℕ)
  pub ports : List (ℕ × ℕ)

abbrev pub default : LoadedRuleSet
default = record {
  domains = [];
  domain_suffixes = [];
  domain_fst = [];
  domain_suffix_fst = [];
  domain_keywords = [];
  domain_regexes = [];
  ipv4_cidrs = [];
  ipv6_cidrs = [];
  ports = [];
}

-- `read_exact` into a buffer of `n` bytes, and the reader behind it.
unfoldable pub read_exact : ℕ → Bytes → Option (Bytes × Bytes)
read_exact n r = if leb n (length r) then some (take n r, drop n r) else none

-- The loop of `decode_strings` at index `i` of `len` bytes. `skip` bytes of the string that was
-- read last are still to be passed; the loop's next round starts behind them.
unfoldable pub decode_strings_from : ℕ → ℕ → ℕ → Bytes → Result RuleSetError (List Bytes)
decode_strings_from len i skip [] = ok []
decode_strings_from len i (suc skip) (b ∷ bs) = decode_strings_from len (i + 1) skip bs
decode_strings_from len i zero (n ∷ bs) = do
  refuse_if (ltb len (i + 1)) (truncated (i + 1) len)
  refuse_if (ltb len (i + 1 + n)) (truncated (i + 1 + n) len)
  refuse_if (not (is_utf8 (take n bs))) invalid_utf8
  rest ← decode_strings_from len (i + 1) n bs
  ok (take n bs ∷ rest)

-- The entry count only sizes the result's buffer.
unfoldable pub decode_strings : Bytes → ℕ → Result RuleSetError (List Bytes)
unfolding decode_strings_from
decode_strings bytes expected = decode_strings_from (length bytes) 0 0 bytes

-- `chunks_exact(n)`: the whole chunks, in order.
unfoldable pub chunks : ℕ → ℕ → Bytes → List Bytes
chunks zero n xs = []
chunks (suc k) n xs = take n xs ∷ chunks k n (drop n xs)

unfoldable pub chunks_exact : ℕ → Bytes → List Bytes
unfolding chunks
chunks_exact n xs = chunks (length xs / n) n xs

unfoldable pub ipv4_entry : Bytes → Ipv4Addr × ℕ
ipv4_entry c = (of_be_bytes (take 4 c), get_or c 4 0)

unfoldable pub ipv6_entry : Bytes → Ipv6Addr × ℕ
ipv6_entry c = (of_be_bytes (take 16 c), get_or c 16 0)

unfoldable pub port_entry : Bytes → ℕ × ℕ
port_entry c =
    (of_le_bytes (get_or c 0 0 ∷ get_or c 1 0 ∷ []), of_le_bytes (get_or c 2 0 ∷ get_or c 3 0 ∷ []))

unfoldable pub decode_ipv4_cidrs : Bytes → ℕ → Result RuleSetError (List (Ipv4Addr × ℕ))
unfolding chunks_exact ipv4_entry
decode_ipv4_cidrs bytes expected =
    if not (length bytes == expected * ipv4_entry_len)
    then err (truncated (expected * ipv4_entry_len) (length bytes))
    else ok (map ipv4_entry (chunks_exact ipv4_entry_len bytes))

unfoldable pub decode_ipv6_cidrs : Bytes → ℕ → Result RuleSetError (List (Ipv6Addr × ℕ))
unfolding chunks_exact ipv6_entry
decode_ipv6_cidrs bytes expected =
    if not (length bytes == expected * ipv6_entry_len)
    then err (truncated (expected * ipv6_entry_len) (length bytes))
    else ok (map ipv6_entry (chunks_exact ipv6_entry_len bytes))

unfoldable pub decode_ports : Bytes → ℕ → Result RuleSetError (List (ℕ × ℕ))
unfolding chunks_exact port_entry
decode_ports bytes expected =
    if not (length bytes == expected * port_entry_len)
    then err (truncated (expected * port_entry_len) (length bytes))
    else ok (map port_entry (chunks_exact port_entry_len bytes))

-- The `match sec_type` of the section loop.
unfoldable pub store_section :
    SectionType → ℕ → Bytes → LoadedRuleSet → Result RuleSetError LoadedRuleSet
store_section domain n bytes out = do xs ← decode_strings bytes n; ok (record out { domains = xs })
store_section domain_suffix n bytes out = do
  xs ← decode_strings bytes n
  ok (record out { domain_suffixes = xs })
store_section domain_fst n bytes out = ok (record out { domain_fst = bytes })
store_section domain_suffix_fst n bytes out = ok (record out { domain_suffix_fst = bytes })
store_section domain_keyword n bytes out = do
  xs ← decode_strings bytes n
  ok (record out { domain_keywords = xs })
store_section domain_regex n bytes out = do
  xs ← decode_strings bytes n
  ok (record out { domain_regexes = xs })
store_section ip_cidr_v4 n bytes out = do
  xs ← decode_ipv4_cidrs bytes n
  ok (record out { ipv4_cidrs = xs })
store_section ip_cidr_v6 n bytes out = do
  xs ← decode_ipv6_cidrs bytes n
  ok (record out { ipv6_cidrs = xs })
store_section port n bytes out = do xs ← decode_ports bytes n; ok (record out { ports = xs })

-- `map_err(RuleSetError::UnknownSection)`
unfoldable pub section_type : ℕ → Result RuleSetError SectionType
section_type v = map_err unknown_section (try_from v)

-- One round of the section loop: the new `out` and the reader behind the section.
unfoldable pub load_section : Bytes → LoadedRuleSet → Result RuleSetError (LoadedRuleSet × Bytes)
load_section r out = do
  (head, r1) ← ok_or (read_exact section_header_len r) io
  let entry_count = of_le_bytes (take 4 (drop 1 head))
  let byte_len = of_le_bytes (take 4 (drop 5 head))
  sec_type ← section_type (get_or head 0 0)
  (bytes, r2) ← ok_or (read_exact byte_len r1) (truncated byte_len 0)
  out' ← store_section sec_type entry_count bytes out
  ok (out', r2)

unfoldable pub load_sections : ℕ → Bytes → LoadedRuleSet → Result RuleSetError LoadedRuleSet
load_sections zero r out = ok out
load_sections (suc n) r out = do (out', r') ← load_section r out; load_sections n r' out'

-- `from_reader` on the reader of a slice, which is what `from_bytes` runs.
unfoldable pub from_bytes : Bytes → Result RuleSetError LoadedRuleSet
from_bytes bytes = do
  (header, r) ← ok_or (read_exact header_len bytes) bad_magic
  refuse_if (not (bytes_eq (take 4 header) magic)) bad_magic
  let ver = get_or header 4 0
  refuse_if (not (ver == version) && not (ver == version_v1)) (unsupported_version ver)
  load_sections (of_le_bytes (take 4 (drop 6 header))) r default
