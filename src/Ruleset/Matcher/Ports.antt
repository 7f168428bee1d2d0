-- ===== src/Ruleset/Matcher/Ports.antt =====
-- `PortBitSet` of src/ruleset/matcher.rs: 65536 bits in 1024 words of 64 bits.
pub mod Members
use model_lib.Prelude.{
  ℕ, zero, suc, ◌+◌, ◌-◌, ◌*◌, ◌/◌, ◌%◌, ◌^◌, ◌≤◌, ◌<◌, min, max, bit_and, bit_or, ◌≡◌, ◌≢◌, ◌↔◌,
  ◌⊎◌, inl, inr, refl, sym, ap, ◌∙◌, subst, arith, Bytes, bytes_eq, bytes_eq_iff, bytes_eq_refl,
  is_utf8, Bool, true, false, not, ◌&&◌, ◌||◌, Bool-cases, Option, none, some, Option-cases, Result,
  ok, err, ◌>>=◌, ◌>>◌, refuse_if, ok_or, map_err, >>=-eq-ok, refuse_if-eq-ok, List, [], ◌∷◌, ◌++◌,
  map, reverse, append-nil, append_assoc, length, is_empty, get_elem?, get_or, set, take, drop,
  replicate, any, All, length-append, length-set, length-replicate, length-map, length-take,
  length-drop, take-append, drop-append, take-append-drop, get_or-append_left, get_or-append_right,
  get_or-set_self, get_or-set_ne, any-append, any-map, All-append, All-take, All-drop, ltb, leb,
  ◌==◌, if◌then◌else◌, ltb→lt, lt→ltb, leb→le, le→leb, ==_iff,
}

abbrev pub PortBitSet : Type 0
PortBitSet = List ℕ

unfoldable pub new : PortBitSet
new = replicate 1024 0

-- `port >> 6`, and `1u64 << (port & 63)`
abbrev pub word_index : ℕ → ℕ
word_index port = port / 64

abbrev pub word_bit : ℕ → ℕ
word_bit port = 2 ^ (port % 64)

unfoldable pub insert : ℕ → PortBitSet → PortBitSet
insert port words =
    set words (word_index port) (bit_or (get_or words (word_index port) 0) (word_bit port))

-- `for p in start..=end`: `count` ports from `p` on are still to be set.
unfoldable pub insert_from : ℕ → ℕ → PortBitSet → PortBitSet
insert_from zero p words = words
insert_from (suc count) p words = insert_from count (p + 1) (insert p words)

unfoldable pub set_range : ℕ → ℕ → PortBitSet → PortBitSet
set_range start end words = insert_from (end + 1 - start) start words

unfoldable pub contains : PortBitSet → ℕ → Bool
contains words port = not (bit_and (get_or words (word_index port) 0) (word_bit port) == 0)
