-- ===== src/Ruleset/Trie/Step.antt =====
-- One step of `insert` in src/ruleset/trie.rs: the paths before and after it.
use model_lib.Prelude.{
  ℕ, zero, suc, ◌+◌, ◌%◌, ◌^◌, ◌≤◌, ◌<◌, ◌≡◌, ◌≢◌, ◌⊎◌, inl, inr, refl, sym, ◌∙◌, arith, Bytes,
  bytes_eq, bytes_eq_iff, bytes_eq_refl, Bool, true, false, ◌&&◌, Bool-cases, Option, none, some,
  Option-cases, List, [], ◌∷◌, ◌++◌, length, get_or, length-append, length-set, get_or-set_self,
  get_or-set_ne, ◌==◌, if◌then◌else◌, ==_iff,
}
use model_lib.Ruleset.Trie.{new_node, SuffixTrie, lookup, node, child, follow, add_child, extend}

-- The node at the end of a path.
abbrev pub walk : SuffixTrie → ℕ → List Bytes → Option ℕ
walk nodes i [] = some i
walk nodes i (l ∷ ls) = follow (child nodes i l) none (λ j. walk nodes j ls)

-- Some rule ends at the end of this path.
abbrev pub holds : SuffixTrie → ℕ → List Bytes → Bool
holds nodes i [] = (node nodes i).is_terminal
holds nodes i (l ∷ ls) = follow (child nodes i l) false (λ j. holds nodes j ls)

-- Every node is named by the one path that leads to it.
pub record IsTree (nodes : SuffixTrie) (name : ℕ → List Bytes) : Type 0 where
  pub root : name 0 ≡ []
  pub size : 0 < length nodes
  pub edges :
      (i j : ℕ) (l : Bytes)
      → child nodes i l ≡ some j
      → (j < length nodes) × (name j ≡ name i ++ (l ∷ []))

get_or-past : (nodes : SuffixTrie) (i : ℕ) → length nodes ≤ i → get_or nodes i new_node ≡ new_node
get_or-past [] i h = refl
get_or-past (n ∷ nodes) zero h = absurd (omega arith)
get_or-past (n ∷ nodes) (suc i) h = get_or-past nodes i (omega arith)

node-push : (nodes : SuffixTrie) (i : ℕ) → node (nodes ++ (new_node ∷ [])) i ≡ node nodes i
node-push [] zero = refl
node-push [] (suc i) = refl
node-push (n ∷ nodes) zero = refl
node-push (n ∷ nodes) (suc i) = node-push nodes i

and_left : (a b : Bool) → (a && b) ≡ true → a ≡ true
and_left a b h = ground arith

and_right : (a b : Bool) → (a && b) ≡ true → b ≡ true
and_right a b h = ground arith

dead : {A : Type 0} {a : A} → none ≡ some a → ⊥
dead h = cc

-- A node is added for a label that is missing below `cur`.
module _ (nodes : SuffixTrie) (cur : ℕ) (label : Bytes) (inside : cur < length nodes)
    (room : length nodes < 2 ^ 32) (missing : child nodes cur label ≡ none) where
  abbrev grown : SuffixTrie
  grown = extend nodes cur label

  size-push : length (nodes ++ (new_node ∷ [])) ≡ length nodes + 1
  size-push = length-append nodes (new_node ∷ [])

  pub length-extend : length grown ≡ length nodes + 1
  unfolding extend
  length-extend = length-set (nodes ++ (new_node ∷ [])) cur _ ∙ size-push

  node-extend_self : node grown cur ≡ add_child (node nodes cur) label (length nodes)
  unfolding extend
  node-extend_self =
      let index : length nodes % 2 ^ 32 ≡ length nodes = omega arith in
      get_or-set_self (nodes ++ (new_node ∷ [])) cur _ new_node (omega (arith, size-push))
      ∙ rw (index, node-push nodes cur)

  node-extend_ne : (i : ℕ) → cur ≢ i → node grown i ≡ node nodes i
  unfolding extend
  node-extend_ne i h =
      get_or-set_ne (nodes ++ (new_node ∷ [])) cur i _ new_node h ∙ node-push nodes i

  -- The edges are those that were there and the new one.
  child-extend :
      (i : ℕ) (l : Bytes)
      → child grown i l
        ≡ (if (cur == i) && bytes_eq label l then some (length nodes) else child nodes i l)
  unfolding lookup
  child-extend i l = elim (Bool-cases (cur == i)) [
    | inl same ↦ let e : cur ≡ i = (==_iff cur i).0 same in rw (same, ← e, node-extend_self) refl
    | inr other ↦
        let ne : cur ≢ i = λ e. absurd (ground arith) in rw (other, node-extend_ne i ne) refl
  ]

  terminal-extend : (i : ℕ) → (node grown i).is_terminal ≡ (node nodes i).is_terminal
  terminal-extend i = elim (Bool-cases (cur == i)) [
    | inl same ↦ let e : cur ≡ i = (==_iff cur i).0 same in rw (← e, node-extend_self) refl
    | inr other ↦ let ne : cur ≢ i = λ e. absurd (ground arith) in rw (node-extend_ne i ne) refl
  ]

  -- Past the arena there is nothing.
  pub new_child : (l : Bytes) → child nodes (length nodes) l ≡ none
  unfolding lookup
  new_child l = rw (get_or-past nodes (length nodes) (omega arith))

  new_terminal : (node nodes (length nodes)).is_terminal ≡ false
  new_terminal = rw (get_or-past nodes (length nodes) (omega arith))

  child-new : (l : Bytes) → child grown (length nodes) l ≡ none
  child-new l =
      let elsewhere : (cur == length nodes) ≡ false = ground arith in
      child-extend (length nodes) l ∙ rw (elsewhere, new_child l) refl

  holds-new : (p : List Bytes) → holds grown (length nodes) p ≡ false
  holds-new [] = terminal-extend (length nodes) ∙ new_terminal
  holds-new (l ∷ ls) = rw (child-new l) refl

  pub child_cases :
      (i : ℕ) (l : Bytes)
      → ((cur ≡ i)
          × (label ≡ l)
          × (child grown i l ≡ some (length nodes))
          × (child nodes i l ≡ none))
        ⊎ (child grown i l ≡ child nodes i l)
  child_cases i l = elim (Bool-cases ((cur == i) && bytes_eq label l)) [
    | inr other ↦ inr (child-extend i l ∙ rw other refl)
    | inl both ↦
        let e : cur ≡ i = (==_iff cur i).0 (and_left _ _ both) in
        let f : label ≡ l = (bytes_eq_iff label l).0 (and_right _ _ both) in
        inl (e, f, child-extend i l ∙ rw both refl, rw (← e, ← f) missing)
  ]

  pub holds-extend : (i : ℕ) (p : List Bytes) → holds grown i p ≡ holds nodes i p
  holds-extend i [] = terminal-extend i
  holds-extend i (l ∷ ls) = elim (child_cases i l) [
    | inl (_, _, added, absent) ↦ rw (added, absent) (holds-new ls)
    | inr kept ↦ rw kept (elim (Option-cases (child nodes i l)) [
      | inl absent ↦ rw absent refl
      | inr (j, there) ↦ rw there (holds-extend j ls)
    ])
  ]

  pub walk-extend : (i j : ℕ) (p : List Bytes) → walk nodes i p ≡ some j → walk grown i p ≡ some j
  walk-extend i j [] e = e
  walk-extend i j (l ∷ ls) e = elim (Option-cases (child nodes i l)) [
    | inl absent ↦ absurd (dead (rw absent at e))
    | inr (k, there) ↦ elim (child_cases i l) [
      | inl (_, _, added, absent) ↦ absurd (dead (sym absent ∙ there))
      | inr kept ↦ rw (kept, there) (walk-extend k j ls (rw there at e))
    ]
  ]

  pub child-extend_new : child grown cur label ≡ some (length nodes)
  child-extend_new =
      let here : (cur == cur) ≡ true = (==_iff cur cur).1 refl in
      child-extend cur label ∙ rw (here, bytes_eq_refl label) refl
