-- ===== src/Tests/Codec.antt =====
-- The binary format at concrete inputs.
use model_lib.Prelude.{◌≡◌, refl, arith, Bytes, is_utf8, ok, ◌>>=◌, List, [], ◌∷◌, ◌++◌, All}
use model_lib.Prelude.Words.{IsBytes}
use model_lib.Ruleset.Format.{port, try_from}
use model_lib.Ruleset.Loader.{decode_strings_from, from_bytes, decode_strings}
use model_lib.Ruleset.Compiler.{CompiledRuleSet}
use model_lib.Ruleset.Compiler.Encode.{
  dedup_after, insert_key, sort_keys, build_fst, encode_strings, dedup, encode_ports,
  encode_ipv6_cidrs, encode_ipv4_cidrs, all_sections, build_domain_fst, build_suffix_fst, serialize,
}
use model_lib.Ruleset.Codec.Strings.{decode_strings-encode_strings, decode_strings_sound, IsShort}
use model_lib.Ruleset.Codec.RoundTrip.{IsWritable, loaded_form, from_bytes-serialize}
use model_lib.Ruleset.Codec.Sections.{IsSmall}
use model_lib.Ruleset.Keys.{domain_to_fst_key}
use model_lib.Tests.Toys.{fst_crate}

abbrev rules : CompiledRuleSet
rules = record {
  domains = (b'A' ∷ []) ∷ [];
  domain_suffixes = [];
  domain_keywords = (b'a' ∷ b'd' ∷ []) ∷ (b'x' ∷ []) ∷ [];
  domain_regexes = [];
  ipv4_cidrs = (0x7f000000, 8) ∷ [];
  ipv6_cidrs = [];
  ports = (80, 443) ∷ [];
}

abbrev domain_bytes : Bytes
domain_bytes = 9 ∷ 1 ∷ b'A' ∷ 0 ∷ []

domains_written : build_domain_fst fst_crate (rules.domains) ≡ ok domain_bytes
unfolding build_domain_fst build_fst domain_to_fst_key sort_keys insert_key dedup dedup_after
domains_written = refl

suffixes_written : build_suffix_fst fst_crate (rules.domain_suffixes) ≡ ok []
unfolding build_suffix_fst build_fst
suffixes_written = refl

short_ad : IsShort (b'a' ∷ b'd' ∷ [])
short_ad = record { length_lt = omega arith; utf8 = unfold is_utf8 in refl }

short_x : IsShort (b'x' ∷ [])
short_x = record { length_lt = omega arith; utf8 = unfold is_utf8 in refl }

rules-IsWritable : IsWritable rules
rules-IsWritable = record {
  keywords = (short_ad, (short_x, tt));
  regexes = tt;
  ipv4 = (omega arith, tt);
  ipv6 = tt;
  port_ranges = ((omega arith, omega arith), tt);
}

rules-IsSmall : All IsSmall (all_sections domain_bytes [] rules)
unfolding all_sections encode_strings encode_ipv4_cidrs encode_ipv6_cidrs encode_ports
rules-IsSmall = (
  omega arith,
  (omega arith, (omega arith, (omega arith, (omega arith, (omega arith, (omega arith, tt)))))),
)

from_bytes-serialize_example :
    (serialize fst_crate rules >>= λ file. from_bytes (file ++ (7 ∷ [])))
    ≡ ok (loaded_form domain_bytes [] rules)
from_bytes-serialize_example =
    from_bytes-serialize fst_crate rules domain_bytes [] (7 ∷ []) rules-IsWritable rules-IsSmall
      domains_written suffixes_written

abbrev keywords : List Bytes
keywords = (b'a' ∷ b'd' ∷ []) ∷ (b'x' ∷ []) ∷ []

decode_strings-encode_strings_example : decode_strings (encode_strings keywords) 2 ≡ ok keywords
decode_strings-encode_strings_example =
    decode_strings-encode_strings keywords 2 (short_ad, (short_x, tt))

abbrev encoded : Bytes
encoded = 2 ∷ b'a' ∷ b'd' ∷ 1 ∷ b'x' ∷ []

encoded-IsBytes : IsBytes encoded
encoded-IsBytes = (omega arith, (omega arith, (omega arith, (omega arith, (omega arith, tt)))))

encoded-read : decode_strings encoded 2 ≡ ok keywords
unfolding decode_strings decode_strings_from is_utf8
encoded-read = refl

decode_strings_sound_example : (encode_strings keywords ≡ encoded) × All IsShort keywords
decode_strings_sound_example = decode_strings_sound encoded 2 encoded-IsBytes encoded-read

port_accepted : try_from 0x20 ≡ ok port
unfolding try_from
port_accepted = refl
