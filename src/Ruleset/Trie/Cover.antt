-- ===== src/Ruleset/Trie/Cover.antt =====
-- `matches` of src/ruleset/trie.rs: the rules that it was built from, and the domains that it matches.
use model_lib.Prelude.{
  ℕ, zero, suc, ◌+◌, ◌^◌, ◌≤◌, ◌≡◌, inl, inr, refl, sym, ap, ◌∙◌, arith, Bytes, bytes_eq, Bool,
  true, false, ◌&&◌, ◌||◌, Bool-cases, some, Option-cases, List, [], ◌∷◌, ◌++◌, reverse, length,
  any, ◌==◌, if◌then◌else◌,
}
use mathlib.Core.List.{reverse-cons}
use model_lib.Ruleset.Keys.{push_first, rlabels, split, dot}
use model_lib.Ruleset.Trie.{
  trim_start_dots, SuffixTrie, new, lookup, child, trim_end_dots, insert, matches_from, matches,
}
use model_lib.Ruleset.Trie.Step.{holds}
use model_lib.Ruleset.Trie.Insert.{path_eq}
use model_lib.Ruleset.Trie.Paths.{rule_path, IsTrie, insert-Grown}

-- The first list is the front of the second.
unfoldable pub is_front : List Bytes → List Bytes → Bool
is_front [] ys = true
is_front (x ∷ xs) [] = false
is_front (x ∷ xs) (y ∷ ys) = bytes_eq x y && is_front xs ys

-- Some front of the labels, with one label at least where there is one, is in the set.
abbrev covered : (List Bytes → Bool) → List Bytes → Bool
covered s [] = s []
covered s (l ∷ ls) = let rest = covered (λ p. s (l ∷ p)) ls in if s (l ∷ []) then true else rest

covered_ext :
    (s t : List Bytes → Bool) (ls : List Bytes)
    → ((p : List Bytes) → s p ≡ t p)
    → covered s ls ≡ covered t ls
covered_ext s t [] h = h []
covered_ext s t (l ∷ ls) h =
    rw (h (l ∷ []), covered_ext (λ p. s (l ∷ p)) (λ p. t (l ∷ p)) ls (λ p. h (l ∷ p))) refl

covered_none :
    (s : List Bytes → Bool) (ls : List Bytes)
    → ((p : List Bytes) → s p ≡ false)
    → covered s ls ≡ false
covered_none s [] h = h []
covered_none s (l ∷ ls) h = rw (h (l ∷ []), covered_none (λ p. s (l ∷ p)) ls (λ p. h (l ∷ p))) refl

covered_or :
    (s t : List Bytes → Bool) (ls : List Bytes)
    → covered (λ p. s p || t p) ls ≡ (covered s ls || covered t ls)
covered_or s t [] = refl
covered_or s t (l ∷ ls) = rw (covered_or (λ p. s (l ∷ p)) (λ p. t (l ∷ p)) ls) (ground arith)

matches_from-covered :
    (nodes : SuffixTrie) (i : ℕ) (ls : List Bytes)
    → matches_from nodes i ls ≡ covered (holds nodes i) ls
unfolding matches_from
matches_from-covered nodes i [] = refl
matches_from-covered nodes i (l ∷ ls) = elim (Option-cases (child nodes i l)) [
  | inl absent ↦ rw absent (sym (covered_none (λ p. false) ls (λ p. refl)))
  | inr (j, there) ↦ rw there (rw (matches_from-covered nodes j ls) refl)
]

covered-path_eq :
    (q : Bytes) (qs ls : List Bytes) → covered (path_eq (q ∷ qs)) ls ≡ is_front (q ∷ qs) ls
unfolding path_eq is_front
covered-path_eq q qs [] = refl
covered-path_eq q [] (l ∷ ls) = elim (Bool-cases (bytes_eq q l)) [
  | inr other ↦ rw other (covered_none (λ p. false) ls (λ p. refl))
  | inl same ↦ rw same refl
]
covered-path_eq q (r ∷ qs) (l ∷ ls) = elim (Bool-cases (bytes_eq q l)) [
  | inr other ↦ rw other (covered_none (λ p. false) ls (λ p. refl))
  | inl same ↦ rw same (covered-path_eq r qs ls)
]

-- `SuffixTrie::new()`, and an `insert` for each rule in turn.
abbrev pub of_rules_onto : SuffixTrie → List Bytes → SuffixTrie
of_rules_onto nodes [] = nodes
of_rules_onto nodes (r ∷ rules) = of_rules_onto (insert r nodes) rules

abbrev pub of_rules : List Bytes → SuffixTrie
of_rules = of_rules_onto new

-- How many nodes the rules can take at most.
abbrev pub total_labels : List Bytes → ℕ
total_labels [] = 0
total_labels (r ∷ rules) = length (rule_path r) + total_labels rules

new-child : (i j : ℕ) (l : Bytes) → child new i l ≡ some j → ⊥
unfolding lookup
new-child zero j l e = ground arith
new-child (suc i) j l e = ground arith

pub new-IsTrie : IsTrie new
new-IsTrie = (
  (λ i. []),
  record { root = refl; size = omega arith; edges = λ i j l e. absurd (new-child i j l e) },
)

holds_new : (p : List Bytes) → holds new 0 p ≡ false
unfolding lookup
holds_new [] = refl
holds_new (l ∷ ls) = refl

of_rules_onto-holds :
    (rules : List Bytes) (nodes : SuffixTrie) (p : List Bytes)
    → IsTrie nodes
    → length nodes + total_labels rules ≤ 2 ^ 32
    → holds (of_rules_onto nodes rules) 0 p
      ≡ (any (λ r. path_eq (rule_path r) p) rules || holds nodes 0 p)
of_rules_onto-holds [] nodes p t room = refl
of_rules_onto-holds (r ∷ rules) nodes p t room =
    let g = insert-Grown r nodes t (omega arith) in
    of_rules_onto-holds rules (insert r nodes) p g.trie (omega (arith, g.size))
    ∙ rw (g.paths p) (ground arith)

abbrev IsCons {ℓ} : {A : Type ℓ} → List A → Type ℓ
IsCons {A} xs = (y : A) × (ys : List A) × (xs ≡ y ∷ ys)

concat-IsCons {ℓ} : {A : Type ℓ} (xs : List A) (x : A) → IsCons (xs ++ (x ∷ []))
concat-IsCons [] x = (x, [], refl)
concat-IsCons (y ∷ ys) x = (y, ys ++ (x ∷ []), refl)

push_first-IsCons : (b : ℕ) (ps : List Bytes) → IsCons (push_first b ps)
push_first-IsCons b [] = (b ∷ [], [], refl)
push_first-IsCons b (p ∷ ps) = (b ∷ p, ps, refl)

split-IsCons : (d : Bytes) → IsCons (split dot d)
split-IsCons [] = ([], [], refl)
split-IsCons (b ∷ bs) = elim (Bool-cases (b == dot)) [
  | inl end ↦ ([], split dot bs, rw end refl)
  | inr part ↦ let (p, ps, e) = push_first-IsCons b (split dot bs) in (p, ps, rw part e)
]

-- `rsplit` yields one label at least.
rlabels-IsCons : (d : Bytes) → IsCons (rlabels d)
rlabels-IsCons d =
    let (p, ps, e) = split-IsCons d in
    let (q, qs, f) = concat-IsCons (reverse ps) p in (q, qs, ap reverse e ∙ reverse-cons p ps ∙ f)

rule_covered :
    (r : Bytes) (ls : List Bytes) → covered (path_eq (rule_path r)) ls ≡ is_front (rule_path r) ls
rule_covered r ls =
    let (q, qs, e) = rlabels-IsCons (trim_start_dots r) in rw e (covered-path_eq q qs ls)

covered-any :
    (rules ls : List Bytes)
    → covered (λ p. any (λ r. path_eq (rule_path r) p) rules) ls
      ≡ any (λ r. is_front (rule_path r) ls) rules
covered-any [] ls = covered_none (λ p. false) ls (λ p. refl)
covered-any (r ∷ rules) ls =
    covered_or (path_eq (rule_path r)) (λ p. any (λ r. path_eq (rule_path r) p) rules) ls
    ∙ rw (rule_covered r ls, covered-any rules ls) refl

-- A trie of rules matches a domain exactly if the labels of some rule, leading dots taken off,
-- are the last labels of the domain, trailing dots taken off. The rules have fewer than 2 ^ 32
-- labels in all, so that every index fits its `u32`.
pub matches-of_rules :
    (rules : List Bytes) (domain : Bytes)
    → 1 + total_labels rules ≤ 2 ^ 32
    → matches (of_rules rules) domain
      ≡ any (λ r. is_front (rule_path r) (rlabels (trim_end_dots domain))) rules
unfolding matches
matches-of_rules rules domain room =
    let ls = rlabels (trim_end_dots domain) in
    matches_from-covered (of_rules rules) 0 ls
    ∙ covered_ext (holds (of_rules rules) 0) (λ p. any (λ r. path_eq (rule_path r) p) rules) ls
        (λ p.
          of_rules_onto-holds rules new p new-IsTrie (omega arith)
          ∙ rw (holds_new p) (ground arith))
    ∙ covered-any rules ls
