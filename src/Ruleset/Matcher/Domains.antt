-- ===== src/Ruleset/Matcher/Domains.antt =====
-- `DomainMatcher` of src/ruleset/matcher.rs: two FSTs, or a hash set and the suffix trie.
pub mod Exact
use model_lib.Prelude.{
  ℕ, zero, suc, ◌+◌, ◌-◌, min, Bytes, bytes_eq, Bool, true, false, not, Option, none, some, List,
  [], ◌∷◌, ◌++◌, length, get_or, set, take, drop, any, ltb, ◌==◌, if◌then◌else◌,
}
use model_lib.Ruleset.Fst.{FstCrate}
use model_lib.Ruleset.Keys.{dot}
use model_lib.Ruleset.Trie
use model_lib.Ruleset.Trie.{SuffixTrie}

-- The FSTs that are loaded, or the hash set of domains (a list) and the trie.
pub data DomainMatcher (fst : FstCrate) : Type 0 where
  sets : Option fst.Set → Option fst.Set → DomainMatcher fst
  legacy : List Bytes → SuffixTrie → DomainMatcher fst

abbrev pub max_labels : ℕ
max_labels = 128

abbrev pub buf_size : ℕ
buf_size = 260

-- The `while` loop that collects label ends: `i` bytes are still to be looked at, from the right,
-- and `found` ends are in the array already. The result is what the loop adds behind them.
unfoldable pub label_ends_from : Bytes → ℕ → ℕ → List ℕ
label_ends_from bytes zero found = []
label_ends_from bytes (suc i) found =
    let at_dot = i ∷ label_ends_from bytes i (found + 1) in
    let inside = label_ends_from bytes i found in
    if not (ltb found max_labels) then [] else if get_or bytes i 0 == dot then at_dot else inside

unfoldable pub label_ends : Bytes → List ℕ
label_ends bytes = length bytes ∷ label_ends_from bytes (length bytes) 1

-- `&bytes[start..end]`
abbrev pub slice : Bytes → ℕ → ℕ → Bytes
slice bytes start end = take (end - start) (drop start bytes)

-- A label is appended to the buffer, cut where it would leave no room, and a dot behind it.
unfoldable pub push_label : Bytes → Bytes → Bytes
push_label buf label =
    let avail = buf_size - (length buf + 1) in
    let copied = buf ++ take (min (length label) avail) label in
    if ltb (length copied) buf_size then copied ++ (dot ∷ []) else copied

module _ (fst : FstCrate) (set : fst.Set) where
  -- The loop over the labels, from the right: the list holds the ends from the `k`th on.
  unfoldable pub probe_labels : Bytes → Bytes → List ℕ → Bool
  probe_labels bytes buf [] = false
  probe_labels bytes buf (end ∷ []) = fst.contains set (push_label buf (slice bytes 0 end))
  probe_labels bytes buf (end ∷ (next ∷ ends)) =
      let buf' = push_label buf (slice bytes (next + 1) end) in
      let rest = probe_labels bytes buf' (next ∷ ends) in
      if fst.contains set buf' then true else rest

module _ (fst : FstCrate) where
  unfoldable pub matches_exact : DomainMatcher fst → Bytes → Bytes → Bool
  matches_exact (sets none suffix) fst_key domain = false
  matches_exact (sets (some exact) suffix) fst_key domain = fst.contains exact fst_key
  matches_exact (legacy domains trie) fst_key domain = any (bytes_eq domain) domains

  unfoldable pub matches_suffix : DomainMatcher fst → Bytes → Bool
  matches_suffix (sets exact none) domain = false
  matches_suffix (sets exact (some set)) domain = probe_labels fst set domain [] (label_ends domain)
  matches_suffix (legacy domains trie) domain = Trie.matches trie domain
