-- ===== src/Tests/EndToEnd.antt =====
-- A rule set from its text at a concrete input.
use model_lib.Prelude.{◌≡◌, refl, arith, Bytes, bytes_eq, ok, [], ◌∷◌, any}
use model_lib.Std.Text.{trim, split_once}
use model_lib.Std.Numbers.{digit, read_digits, unsigned, parse_below}
use model_lib.Std.Addresses.{octet, octets, ipv4_from_str}
use model_lib.Ruleset.Format.{as_u8, try_from}
use model_lib.Ruleset.Loader.{
  read_exact, chunks, chunks_exact, ipv4_entry, port_entry, decode_ipv4_cidrs, decode_ports,
  store_section, section_type, load_section, load_sections, from_bytes,
}
use model_lib.Ruleset.Compiler.{CompiledRuleSet}
use model_lib.Ruleset.Compiler.Parse.{mask_ipv4, parse_ipv4_cidr, parse_port_range, port_range_of}
use model_lib.Ruleset.Compiler.FromText
use model_lib.Ruleset.Compiler.FromText.{add_lines, add_line, add_rule, rule_key, empty}
use model_lib.Ruleset.Compiler.Encode.{
  encode_strings, encode_ipv4_cidrs, encode_ipv6_cidrs, encode_ports, count_strings,
  entry_count_for, build_fst, build_domain_fst, build_suffix_fst, keep_sections, write_section,
  write_sections, all_sections, serialize,
}
use model_lib.Ruleset.Matcher.Text
use model_lib.Ruleset.Matcher.Engine.{
  v4, match_ip, match_port, from_loaded, build_domain_matcher, build_regexes, insert_domains,
  insert_suffixes,
}
use model_lib.Ruleset.Matcher.Engine.Answers.{in_port_range, in_ipv4_cidr}
use model_lib.Ruleset.Matcher.EndToEnd.{IsStorable, from_text-answers}
use model_lib.Tests.Toys.{fst_crate, regex_crate}
use model_lib.Tests.Index.{loaded_rules}

abbrev text : Bytes
text =
    b'i' ∷ b'p' ∷ b'-' ∷ b'c' ∷ b'i' ∷ b'd' ∷ b'r' ∷ b':' ∷ b'1' ∷ b'0' ∷ b'.' ∷ b'1' ∷ b'.' ∷ b'2'
    ∷ b'.' ∷ b'3' ∷ b'/' ∷ b'8' ∷ b'\n' ∷ b'p' ∷ b'o' ∷ b'r' ∷ b't' ∷ b':' ∷ b'8' ∷ b'0' ∷ b'-'
    ∷ b'4' ∷ b'4' ∷ b'3' ∷ []

abbrev compiled : CompiledRuleSet
compiled = record empty { ipv4_cidrs = (0x0a000000, 8) ∷ []; ports = (80, 443) ∷ [] }

text-compiled : FromText.from_text (regex_crate.regex_ok) text ≡ ok compiled
unfolding FromText.from_text add_lines add_line add_rule rule_key trim split_once bytes_eq mask_ipv4
    parse_ipv4_cidr parse_port_range port_range_of parse_below unsigned read_digits digit
    ipv4_from_str octets octet
text-compiled = refl

no_domains : build_domain_fst fst_crate (compiled.domains) ≡ ok []
unfolding build_domain_fst build_fst
no_domains = refl

no_suffixes : build_suffix_fst fst_crate (compiled.domain_suffixes) ≡ ok []
unfolding build_suffix_fst build_fst
no_suffixes = refl

compiled-IsStorable : IsStorable [] [] compiled
unfolding all_sections encode_strings encode_ipv4_cidrs encode_ipv6_cidrs encode_ports
compiled-IsStorable = record {
  keywords = tt;
  regexes = tt;
  small = (
    omega arith,
    (omega arith, (omega arith, (omega arith, (omega arith, (omega arith, (omega arith, tt)))))),
  );
}

text-built : Text.from_text fst_crate regex_crate text ≡ ok loaded_rules
unfolding Text.from_text FromText.from_text add_lines add_line add_rule rule_key trim split_once
    bytes_eq mask_ipv4 parse_ipv4_cidr parse_port_range port_range_of parse_below unsigned
    read_digits digit ipv4_from_str octets octet serialize build_domain_fst build_suffix_fst
    build_fst all_sections encode_strings encode_ipv4_cidrs encode_ipv6_cidrs encode_ports
    keep_sections write_sections write_section as_u8 entry_count_for count_strings from_bytes
    read_exact load_sections load_section section_type try_from store_section decode_ipv4_cidrs
    decode_ports chunks_exact chunks ipv4_entry port_entry from_loaded build_domain_matcher
    build_regexes insert_domains insert_suffixes
text-built = refl

from_text-answers_example :
    (match_port fst_crate regex_crate loaded_rules 443 ≡ any (in_port_range 443) (compiled.ports))
    × (match_ip fst_crate regex_crate loaded_rules (v4 0x0a090909)
        ≡ any (in_ipv4_cidr 0x0a090909) (compiled.ipv4_cidrs))
from_text-answers_example =
    from_text-answers fst_crate regex_crate text compiled [] [] loaded_rules text-compiled
      no_domains no_suffixes compiled-IsStorable text-built 443 0x0a090909 (omega arith)
