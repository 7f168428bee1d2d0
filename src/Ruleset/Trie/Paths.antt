-- ===== src/Ruleset/Trie/Paths.antt =====
-- `insert` of src/ruleset/trie.rs as a whole: the rules that a trie holds, as paths of labels.
use model_lib.Prelude.{
  ℕ, ◌+◌, ◌^◌, ◌≤◌, ◌<◌, ◌≡◌, ◌≢◌, inl, inr, refl, sym, ap, ◌∙◌, arith, Bytes, Bool, true, false,
  ◌||◌, Bool-cases, some, Option-cases, List, [], ◌∷◌, length, length-set, get_or-set_self,
  get_or-set_ne, ◌==◌, ==_iff,
}
use model_lib.Ruleset.Keys.{rlabels}
use model_lib.Ruleset.Trie.{
  new_node, SuffixTrie, node, child, follow, insert_labels, mark, trim_start_dots, insert,
}
use model_lib.Ruleset.Trie.Step.{walk, holds, IsTree}
use model_lib.Ruleset.Trie.Insert.{
  path_eq, path_eq_iff, walk_name, Inserted, insert_labels-Inserted,
}

-- The labels of a rule, the last first, with leading dots taken off.
abbrev pub rule_path : Bytes → List Bytes
rule_path rule = rlabels (trim_start_dots rule)

abbrev pub IsTrie : SuffixTrie → Type 0
IsTrie nodes = (name : ℕ → List Bytes) × IsTree nodes name

-- The path leads to the node.
abbrev leads_to : SuffixTrie → ℕ → ℕ → List Bytes → Bool
leads_to nodes c i p = follow (walk nodes i p) false (λ j. c == j)

module _ (nodes : SuffixTrie) (c : ℕ) (inside : c < length nodes) where
  node-mark_self : node (mark nodes c) c ≡ record (node nodes c) { is_terminal = true }
  unfolding mark
  node-mark_self = get_or-set_self nodes c _ new_node inside

  node-mark_ne : (i : ℕ) → c ≢ i → node (mark nodes c) i ≡ node nodes i
  unfolding mark
  node-mark_ne i h = get_or-set_ne nodes c i _ new_node h

  child-mark : (i : ℕ) (l : Bytes) → child (mark nodes c) i l ≡ child nodes i l
  child-mark i l = elim (Bool-cases (c == i)) [
    | inl same ↦ let e : c ≡ i = (==_iff c i).0 same in rw (← e, node-mark_self) refl
    | inr other ↦ let ne : c ≢ i = λ e. absurd (ground arith) in rw (node-mark_ne i ne) refl
  ]

  terminal-mark :
      (i : ℕ) → (node (mark nodes c) i).is_terminal ≡ ((c == i) || (node nodes i).is_terminal)
  terminal-mark i = elim (Bool-cases (c == i)) [
    | inl same ↦ let e : c ≡ i = (==_iff c i).0 same in rw (same, ← e, node-mark_self) refl
    | inr other ↦ let ne : c ≢ i = λ e. absurd (ground arith) in rw (other, node-mark_ne i ne) refl
  ]

  holds-mark :
      (i : ℕ) (p : List Bytes)
      → holds (mark nodes c) i p ≡ (leads_to nodes c i p || holds nodes i p)
  holds-mark i [] = terminal-mark i
  holds-mark i (l ∷ ls) = elim (Option-cases (child nodes i l)) [
    | inl absent ↦ rw (child-mark i l, absent) refl
    | inr (j, there) ↦ rw (child-mark i l, there) (holds-mark j ls)
  ]

  length-mark : length (mark nodes c) ≡ length nodes
  unfolding mark
  length-mark = length-set nodes c _

  mark-IsTree : (name : ℕ → List Bytes) → IsTree nodes name → IsTree (mark nodes c) name
  mark-IsTree name tree = record {
    root = tree.root;
    size = omega (arith, tree.size, length-mark);
    edges = λ i j l e.
        let (below, named) = tree.edges i j l (sym (child-mark i l) ∙ e) in
        (omega (arith, length-mark), named);
  }

-- What `insert` does to the trie.
pub record Grown (rule : Bytes) (nodes : SuffixTrie) (grown : SuffixTrie) : Type 0 where
  pub trie : IsTrie grown
  pub size : length grown ≤ length nodes + length (rule_path rule)
  pub paths : (p : List Bytes) → holds grown 0 p ≡ (path_eq (rule_path rule) p || holds nodes 0 p)

leads_to-path_eq :
    (nodes : SuffixTrie) (name : ℕ → List Bytes) (c : ℕ) (path p : List Bytes)
    → IsTree nodes name
    → walk nodes 0 path ≡ some c
    → leads_to nodes c 0 p ≡ path_eq path p
leads_to-path_eq nodes name c path p tree e = elim (Bool-cases (path_eq path p)) [
  | inl same ↦
      let q : path ≡ p = (path_eq_iff path p).0 same in rw (same, ← q, e) ((==_iff c c).1 refl)
  | inr other ↦ rw other (elim (Option-cases (walk nodes 0 p)) [
    | inl nowhere ↦ rw nowhere refl
    | inr (j, there) ↦ rw there (elim (Bool-cases (c == j)) [
      | inr apart ↦ apart
      | inl same ↦
          let named : path ≡ p =
            sym (walk_name nodes name 0 c path tree e ∙ rw tree.root refl)
            ∙ ap name ((==_iff c j).0 same)
            ∙ (walk_name nodes name 0 j p tree there ∙ rw tree.root refl) in
          absurd (let yes_same = (path_eq_iff path p).1 named in ground arith)
    ])
  ])
]

-- An inserted rule adds exactly its own path to a trie, which stays a trie and takes at most one
-- node for each label, if the arena then has at most 2 ^ 32 nodes.
pub insert-Grown :
    (rule : Bytes) (nodes : SuffixTrie)
    → IsTrie nodes
    → length nodes + length (rule_path rule) ≤ 2 ^ 32
    → Grown rule nodes (insert rule nodes)
unfolding insert
insert-Grown rule nodes (name, tree) room =
    let out = insert_labels nodes 0 (rule_path rule) in
    let r : Inserted nodes 0 (rule_path rule) out =
      insert_labels-Inserted (rule_path rule) nodes 0 name tree tree.size room in
    record {
      trie = (r.name, mark-IsTree out.0 out.1 r.inside r.name r.tree);
      size = omega (arith, r.size, length-mark out.0 out.1 r.inside);
      paths = λ p.
          holds-mark out.0 out.1 r.inside 0 p
          ∙ rw (leads_to-path_eq out.0 r.name out.1 (rule_path rule) p r.tree r.reached, r.same 0 p)
              refl;
    }
