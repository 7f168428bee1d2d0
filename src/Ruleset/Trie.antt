-- ===== src/Ruleset/Trie.antt =====
-- src/ruleset/trie.rs: the suffix trie, an arena of nodes addressed by index.
pub mod Step
pub mod Insert
pub mod Paths
pub mod Cover
use model_lib.Prelude.{
  ℕ, zero, suc, ◌+◌, ◌-◌, ◌*◌, ◌/◌, ◌%◌, ◌^◌, ◌≤◌, ◌<◌, min, max, bit_and, bit_or, ◌≡◌, ◌≢◌, ◌↔◌,
  ◌⊎◌, inl, inr, refl, sym, ap, ◌∙◌, subst, arith, Bytes, bytes_eq, bytes_eq_iff, bytes_eq_refl,
  is_utf8, Bool, true, false, not, ◌&&◌, ◌||◌, Bool-cases, Option, none, some, Option-cases, Result,
  ok, err, ◌>>=◌, ◌>>◌, refuse_if, ok_or, map_err, >>=-eq-ok, refuse_if-eq-ok, ok_inj, List, [],
  ◌∷◌, ◌++◌, map, reverse, append-nil, append_assoc, length, is_empty, get_elem?, get_or, set, take,
  drop, replicate, any, All, length-append, length-set, length-replicate, length-map, length-take,
  length-drop, take-append, drop-append, take-append-drop, get_or-append_left, get_or-append_right,
  get_or-set_self, get_or-set_ne, any-append, any-map, All-append, All-take, All-drop, ltb, leb,
  ◌==◌, if◌then◌else◌, ltb→lt, lt→ltb, leb→le, le→leb, ==_iff,
}
use model_lib.Ruleset.Keys.{dot, split, rlabels}

-- The hash map from labels to indices is an association list; a label is inserted only where it
-- is missing.
pub record TrieNode : Type 0 where
  pub children : List (Bytes × ℕ)
  pub is_terminal : Bool

abbrev pub new_node : TrieNode
new_node = record { children = []; is_terminal = false }

abbrev pub SuffixTrie : Type 0
SuffixTrie = List TrieNode

abbrev pub new : SuffixTrie
new = new_node ∷ []

unfoldable pub lookup : Bytes → List (Bytes × ℕ) → Option ℕ
lookup label [] = none
lookup label ((k, v) ∷ m) = if bytes_eq k label then some v else lookup label m

-- `self.nodes[i]`; out of range, where the source panics, the node is an empty one.
abbrev pub node : SuffixTrie → ℕ → TrieNode
node nodes i = get_or nodes i new_node

abbrev pub child : SuffixTrie → ℕ → Bytes → Option ℕ
child nodes i label = lookup label (node nodes i).children

abbrev pub add_child : TrieNode → Bytes → ℕ → TrieNode
add_child n label i = record n { children = (label, i) ∷ n.children }

-- A new node behind the arena, and the edge to it from `cur`.
unfoldable pub extend : SuffixTrie → ℕ → Bytes → SuffixTrie
extend nodes cur label =
    let pushed = nodes ++ (new_node ∷ []) in
    set pushed cur (add_child (node pushed cur) label (length nodes % 2 ^ 32))

-- `match` on the child that was found.
abbrev pub follow {ℓ} : {A : Type ℓ} → Option ℕ → A → (ℕ → A) → A
follow none missing found = missing
follow (some i) missing found = found i

-- The loop of `insert`: the arena and the node that it ends at.
unfoldable pub insert_labels : SuffixTrie → ℕ → List Bytes → SuffixTrie × ℕ
insert_labels nodes cur [] = (nodes, cur)
insert_labels nodes cur (label ∷ labels) =
    let created = insert_labels (extend nodes cur label) (length nodes % 2 ^ 32) labels in
    follow (child nodes cur label) created (λ i. insert_labels nodes i labels)

unfoldable pub mark : SuffixTrie → ℕ → SuffixTrie
mark nodes i = set nodes i (record (node nodes i) { is_terminal = true })

-- `trim_start_matches('.')`, and `trim_end_matches('.')` below
unfoldable pub trim_start_dots : Bytes → Bytes
trim_start_dots [] = []
trim_start_dots (b ∷ bs) = let rest = trim_start_dots bs in if b == dot then rest else b ∷ bs

unfoldable pub trim_end_dots : Bytes → Bytes
unfolding trim_start_dots
trim_end_dots d = reverse (trim_start_dots (reverse d))

unfoldable pub insert : Bytes → SuffixTrie → SuffixTrie
insert domain nodes =
    let (nodes', cur) = insert_labels nodes 0 (rlabels (trim_start_dots domain)) in mark nodes' cur

-- The loop of `matches`.
unfoldable pub matches_from : SuffixTrie → ℕ → List Bytes → Bool
matches_from nodes cur [] = (node nodes cur).is_terminal
matches_from nodes cur (label ∷ labels) = follow (child nodes cur label) false (λ i.
    let rest = matches_from nodes i labels in if (node nodes i).is_terminal then true else rest)

unfoldable pub matches : SuffixTrie → Bytes → Bool
matches nodes domain = matches_from nodes 0 (rlabels (trim_end_dots domain))

unfoldable pub len : SuffixTrie → ℕ
len [] = 0
len (n ∷ nodes) = (if n.is_terminal then 1 else 0) + len nodes

unfoldable pub node_count : SuffixTrie → ℕ
node_count nodes = length nodes
