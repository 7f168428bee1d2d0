-- ===== src/Ruleset/Format.antt =====
-- src/ruleset/format.rs: the constants of the binary format and the section types.
use model_lib.Prelude.{ℕ, ◌≡◌, refl, Bytes, Result, ok, err, ◌==◌, if◌then◌else◌, [], ◌∷◌, arith}

abbrev pub magic : Bytes
magic = b'R' ∷ b'R' ∷ b'S' ∷ b'T' ∷ []

abbrev pub version : ℕ
version = 0x02

abbrev pub version_v1 : ℕ
version_v1 = 0x01

abbrev pub header_len : ℕ
header_len = 14

abbrev pub section_header_len : ℕ
section_header_len = 9

abbrev pub ipv4_entry_len : ℕ
ipv4_entry_len = 5

abbrev pub ipv6_entry_len : ℕ
ipv6_entry_len = 17

abbrev pub port_entry_len : ℕ
port_entry_len = 4

pub data SectionType : Type 0 where
  domain domain_suffix domain_keyword domain_regex domain_fst domain_suffix_fst : SectionType
  ip_cidr_v4 ip_cidr_v6 port : SectionType

-- `sec_type as u8`
unfoldable pub as_u8 : SectionType → ℕ
as_u8 domain = 0x01
as_u8 domain_suffix = 0x02
as_u8 domain_keyword = 0x03
as_u8 domain_regex = 0x04
as_u8 domain_fst = 0x05
as_u8 domain_suffix_fst = 0x06
as_u8 ip_cidr_v4 = 0x10
as_u8 ip_cidr_v6 = 0x11
as_u8 port = 0x20

-- `SectionType::try_from`; the error is the byte.
unfoldable pub try_from : ℕ → Result ℕ SectionType
try_from v =
    if v == 0x01
    then ok domain
    else if v == 0x02
    then ok domain_suffix
    else if v == 0x03
    then ok domain_keyword
    else if v == 0x04
    then ok domain_regex
    else if v == 0x05
    then ok domain_fst
    else if v == 0x06
    then ok domain_suffix_fst
    else if v == 0x10
    then ok ip_cidr_v4
    else if v == 0x11
    then ok ip_cidr_v6
    else if v == 0x20
    then ok port
    else err v

-- Every section type is read back from its byte.
pub try_from-as_u8 : (t : SectionType) → try_from (as_u8 t) ≡ ok t
unfolding try_from as_u8
try_from-as_u8 domain = refl
try_from-as_u8 _ = refl

-- Only the byte of a section type is accepted.
as_u8_of_try_from : (v : ℕ) (t : SectionType) → try_from v ≡ ok t → as_u8 t ≡ v
unfolding try_from as_u8
as_u8_of_try_from v t h = ground arith
