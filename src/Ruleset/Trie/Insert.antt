-- ===== src/Ruleset/Trie/Insert.antt =====
-- `insert` of src/ruleset/trie.rs: the arena as a tree, and its paths.
use model_lib.Prelude.{
  ℕ, ◌+◌, ◌%◌, ◌^◌, ◌≤◌, ◌<◌, ◌≡◌, ◌≢◌, ◌↔◌, inl, inr, refl, sym, ap, ◌∙◌, arith, Bytes, bytes_eq,
  bytes_eq_iff, Bool, true, false, ◌&&◌, none, some, Option-cases, List, [], ◌∷◌, ◌++◌, append-nil,
  append_assoc, length, ◌==◌, if◌then◌else◌,
}
use model_lib.Ruleset.Trie.{SuffixTrie, child, extend, insert_labels}
use model_lib.Ruleset.Trie.Step.{
  walk, holds, IsTree, length-extend, child_cases, holds-extend, walk-extend, child-extend_new,
  new_child,
}

-- Equality of paths.
unfoldable pub path_eq : List Bytes → List Bytes → Bool
path_eq [] [] = true
path_eq (x ∷ xs) (y ∷ ys) = bytes_eq x y && path_eq xs ys
path_eq _ _ = false

pub path_eq_iff : (a b : List Bytes) → (path_eq a b ≡ true) ↔ (a ≡ b)
unfolding path_eq
path_eq_iff (x ∷ a) (y ∷ b) = ground (arith, bytes_eq_iff x y, path_eq_iff a b)
path_eq_iff _ _ = ground arith

pub some_eq : {a b : ℕ} → some a ≡ some b → a ≡ b
some_eq h = cc

pub walk_name :
    (nodes : SuffixTrie) (name : ℕ → List Bytes) (i j : ℕ) (p : List Bytes)
    → IsTree nodes name
    → walk nodes i p ≡ some j
    → name j ≡ name i ++ p
walk_name nodes name i j [] tree e = let same : i ≡ j = ground arith in rw (append-nil, same)
walk_name nodes name i j (l ∷ ls) tree e = elim (Option-cases (child nodes i l)) [
  | inl absent ↦ absurd (let f : none ≡ some j = rw absent at e in ground arith)
  | inr (k, there) ↦
      walk_name nodes name k j ls tree (rw there at e)
      ∙ rw ((tree.edges i k l there).1) (append_assoc (name i) (l ∷ []) ls)
]

module _ (nodes : SuffixTrie) (name : ℕ → List Bytes) (cur : ℕ) (label : Bytes)
    (tree : IsTree nodes name) (inside : cur < length nodes) (room : length nodes < 2 ^ 32)
    (missing : child nodes cur label ≡ none) where
  -- The new node is named by the path to it.
  abbrev grown_name : ℕ → List Bytes
  grown_name i = if i == length nodes then name cur ++ (label ∷ []) else name i

  name-old : (i : ℕ) → i ≢ length nodes → grown_name i ≡ name i
  name-old i h = let other : (i == length nodes) ≡ false = ground arith in rw other refl

  name-new : grown_name (length nodes) ≡ name cur ++ (label ∷ [])
  name-new = let same : (length nodes == length nodes) ≡ true = ground arith in rw same refl

  not_past : (i j : ℕ) (l : Bytes) → child nodes i l ≡ some j → i ≢ length nodes
  not_past i j l e same =
      let none_there = new_child nodes cur label inside room missing l in
      let clash : none ≡ some j = sym none_there ∙ ap (λ k. child nodes k l) (sym same) ∙ e in
      ground arith

  bound : length (extend nodes cur label) ≡ length nodes + 1
  bound = length-extend nodes cur label inside room missing

  new_edge :
      (i j : ℕ) (l : Bytes)
      → cur ≡ i
      → label ≡ l
      → length nodes ≡ j
      → (j < length (extend nodes cur label)) × (grown_name j ≡ grown_name i ++ (l ∷ []))
  new_edge i j l same_i same_l same_j =
      rw (← same_i, ← same_l, ← same_j)
        (
          omega (arith, bound),
          name-new ∙ ap (λ n. n ++ (label ∷ [])) (sym (name-old cur (λ e. absurd (omega arith)))),
        )

  old_edge :
      (i j : ℕ) (l : Bytes)
      → child nodes i l ≡ some j
      → (j < length (extend nodes cur label)) × (grown_name j ≡ grown_name i ++ (l ∷ []))
  old_edge i j l e =
      let (below, named) = tree.edges i j l e in
      (
        omega (arith, bound),
        name-old j (λ same. absurd (omega arith))
            ∙ named
            ∙ ap (λ n. n ++ (l ∷ [])) (sym (name-old i (not_past i j l e))),
      )

  extend-IsTree : IsTree (extend nodes cur label) grown_name
  extend-IsTree = record {
    root = name-old 0 (λ e. absurd (omega (arith, tree.size))) ∙ tree.root;
    size = omega (arith, length-extend nodes cur label inside room missing);
    edges = λ i j l e. elim (child_cases nodes cur label inside room missing i l) [
      | inl (same_i, same_l, added, absent) ↦ new_edge i j l same_i same_l (some_eq (sym added ∙ e))
      | inr kept ↦ old_edge i j l (sym kept ∙ e)
    ];
  }

-- What the loop of `insert` leaves.
pub record Inserted (nodes : SuffixTrie) (cur : ℕ) (ls : List Bytes) (out : SuffixTrie × ℕ)
    : Type 0 where
  pub name : ℕ → List Bytes
  pub tree : IsTree out.0 name
  pub inside : out.1 < length out.0
  pub reached : walk out.0 cur ls ≡ some out.1
  pub same : (i : ℕ) (p : List Bytes) → holds out.0 i p ≡ holds nodes i p
  pub walks : (i j : ℕ) (p : List Bytes) → walk nodes i p ≡ some j → walk out.0 i p ≡ some j
  pub size : length out.0 ≤ length nodes + length ls

walk_cons :
    (t : SuffixTrie) (a b : ℕ) (k : Bytes) (ks : List Bytes)
    → walk t a (k ∷ []) ≡ some b
    → walk t a (k ∷ ks) ≡ walk t b ks
walk_cons t a b k ks e = elim (Option-cases (child t a k)) [
  | inl absent ↦ absurd (let f : none ≡ some b = rw absent at e in ground arith)
  | inr (j, there) ↦
      let same : j ≡ b = some_eq (rw there at e) in rw there (ap (λ x. walk t x ks) same)
]

Inserted-child :
    {nodes : SuffixTrie} {cur i : ℕ} {l : Bytes} {ls : List Bytes} {out : SuffixTrie × ℕ}
    → child nodes cur l ≡ some i
    → Inserted nodes i ls out
    → Inserted nodes cur (l ∷ ls) out
Inserted-child {nodes} {cur} {i} {l} {ls} {out} there r = record {
  name = r.name;
  tree = r.tree;
  inside = r.inside;
  reached = walk_cons out.0 cur i l ls (r.walks cur i (l ∷ []) (rw there refl)) ∙ r.reached;
  same = r.same;
  walks = r.walks;
  size = omega (arith, r.size);
}

module _ (nodes : SuffixTrie) (cur : ℕ) (l : Bytes) (h : cur < length nodes)
    (room : length nodes < 2 ^ 32) (absent : child nodes cur l ≡ none) where
  Inserted-extend :
      {ls : List Bytes} {out : SuffixTrie × ℕ}
      → Inserted (extend nodes cur l) (length nodes) ls out
      → Inserted nodes cur (l ∷ ls) out
  Inserted-extend {ls} {out} r = record {
    name = r.name;
    tree = r.tree;
    inside = r.inside;
    reached =
        walk_cons out.0 cur (length nodes) l ls (
          r.walks cur (length nodes) (l ∷ [])
            (rw (child-extend_new nodes cur l h room absent) refl))
        ∙ r.reached;
    same = λ i p. r.same i p ∙ holds-extend nodes cur l h room absent i p;
    walks = λ i j p e. r.walks i j p (walk-extend nodes cur l h room absent i j p e);
    size = omega (arith, r.size, length-extend nodes cur l h room absent);
  }

pub insert_labels-Inserted :
    (ls : List Bytes) (nodes : SuffixTrie) (cur : ℕ) (name : ℕ → List Bytes)
    → IsTree nodes name
    → cur < length nodes
    → length nodes + length ls ≤ 2 ^ 32
    → Inserted nodes cur ls (insert_labels nodes cur ls)
unfolding insert_labels
insert_labels-Inserted [] nodes cur name tree h room = record {
  name = name;
  tree = tree;
  inside = h;
  reached = refl;
  same = λ i p. refl;
  walks = λ i j p e. e;
  size = omega arith;
}
insert_labels-Inserted (l ∷ ls) nodes cur name tree h room =
    elim (Option-cases (child nodes cur l)) [
      | inl absent ↦
          let index : length nodes % 2 ^ 32 ≡ length nodes = omega arith in
          let more = length-extend nodes cur l h (omega arith) absent in
          rw (absent, index)
            (Inserted-extend nodes cur l h (omega arith) absent (
              insert_labels-Inserted ls (extend nodes cur l) (length nodes) _
                (extend-IsTree nodes name cur l tree h (omega arith) absent) (omega (arith, more))
                (omega (arith, more))))
      | inr (i, there) ↦ rw there (
          Inserted-child there (
            insert_labels-Inserted ls nodes i name tree (tree.edges cur i l there).0 (omega arith)))
    ]
