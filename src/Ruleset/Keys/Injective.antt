-- ===== src/Ruleset/Keys/Injective.antt =====
-- The exact FST keys of src/ruleset/compiler.rs and the domains that they are made from.
use model_lib.Prelude.{
  ℕ, ◌≡◌, inl, inr, refl, sym, ap, ◌∙◌, subst, arith, Bytes, bytes_eq, bytes_eq_iff, false,
  Bool-cases, List, [], ◌∷◌, ◌++◌, reverse, All, All-append, ◌==◌, ==_iff,
}
use model_lib.Ruleset.Keys.{dot, push_first, split, join, rlabels, domain_to_fst_key}
use mathlib.Core.List.{reverse-cons, reverse-reverse}

-- No dot in the label.
abbrev IsLabel : Bytes → Type 0
IsLabel p = All (λ b. (b == dot) ≡ false) p

-- At least one piece.
abbrev IsCons : List Bytes → Type 0
IsCons xs = (p : Bytes) × (ps : List Bytes) × (xs ≡ p ∷ ps)

split-IsCons : (d : Bytes) → IsCons (split dot d)
split-IsCons [] = ([], [], refl)
split-IsCons (b ∷ d) = elim (Bool-cases (b == dot)) [
  | inl end ↦ ([], split dot d, rw end refl)
  | inr part ↦ let (p, ps, e) = split-IsCons d in (b ∷ p, ps, rw (part, e) refl)
]

push_first-IsLabel :
    (b : ℕ) (ps : List Bytes) → (b == dot) ≡ false → All IsLabel ps → All IsLabel (push_first b ps)
push_first-IsLabel b [] h k = ((h, tt), tt)
push_first-IsLabel b (p ∷ ps) h k = ((h, k.0), k.1)

split-IsLabel : (d : Bytes) → All IsLabel (split dot d)
split-IsLabel [] = (tt, tt)
split-IsLabel (b ∷ d) = elim (Bool-cases (b == dot)) [
  | inl end ↦ rw end (tt, split-IsLabel d)
  | inr part ↦ rw part (push_first-IsLabel b (split dot d) part (split-IsLabel d))
]

join-push_first :
    (b : ℕ) (p : Bytes) (ps : List Bytes) → join dot ((b ∷ p) ∷ ps) ≡ b ∷ join dot (p ∷ ps)
join-push_first b p [] = refl
join-push_first b p (q ∷ ps) = refl

join-empty_first : (ps : List Bytes) → IsCons ps → join dot ([] ∷ ps) ≡ dot ∷ join dot ps
join-empty_first [] (q, qs, e) = cc
join-empty_first (p ∷ ps) c = refl

join-split : (d : Bytes) → join dot (split dot d) ≡ d
join-split [] = refl
join-split (b ∷ d) = elim (Bool-cases (b == dot)) [
  | inl end ↦ rw end (
      join-empty_first (split dot d) (split-IsCons d)
      ∙ ap (◌∷◌ dot) (join-split d)
      ∙ ap (λ c. c ∷ d) (sym ((==_iff b dot).0 end)))
  | inr part ↦
      let (p, ps, e) = split-IsCons d in
      let rest = rw e at (join-split d) in rw (part, e) (join-push_first b p ps ∙ ap (◌∷◌ b) rest)
]

split_label : (p : Bytes) → IsLabel p → split dot p ≡ p ∷ []
split_label [] h = refl
split_label (b ∷ p) h = rw (h.0, split_label p h.1) refl

split_front : (p s : Bytes) → IsLabel p → split dot (p ++ (dot ∷ s)) ≡ p ∷ split dot s
split_front [] s h = refl
split_front (b ∷ p) s h = rw (h.0, split_front p s h.1) refl

split-join :
    (p : Bytes) (ps : List Bytes) → All IsLabel (p ∷ ps) → split dot (join dot (p ∷ ps)) ≡ p ∷ ps
split-join p [] h = split_label p h.0
split-join p (q ∷ ps) h = split_front p (join dot (q ∷ ps)) h.0 ∙ ap (◌∷◌ p) (split-join q ps h.1)

reverse-IsLabel : (ps : List Bytes) → All IsLabel ps → All IsLabel (reverse ps)
reverse-IsLabel [] h = tt
reverse-IsLabel (p ∷ ps) h =
    subst (All IsLabel) (sym (reverse-cons p ps))
      (All-append IsLabel (reverse ps) (p ∷ []) (reverse-IsLabel ps h.1) (h.0, tt))

snoc-IsCons : (ps : List Bytes) (p : Bytes) → IsCons (ps ++ (p ∷ []))
snoc-IsCons [] p = (p, [], refl)
snoc-IsCons (q ∷ ps) p = (q, ps ++ (p ∷ []), refl)

-- Splitting a key gives the labels back.
split-domain_to_fst_key : (d : Bytes) → split dot (domain_to_fst_key d) ≡ rlabels d
unfolding domain_to_fst_key
split-domain_to_fst_key d =
    let (p, ps, e) = split-IsCons d in
    let (q, qs, f) = snoc-IsCons (reverse ps) p in
    let g : rlabels d ≡ q ∷ qs = ap reverse e ∙ reverse-cons p ps ∙ f in
    let labels : All IsLabel (q ∷ qs) =
      subst (All IsLabel) g (reverse-IsLabel (split dot d) (split-IsLabel d)) in
    subst (λ ls. split dot (join dot ls) ≡ ls) (sym g) (split-join q qs labels)

pub domain_to_fst_key-injective : (a b : Bytes) → domain_to_fst_key a ≡ domain_to_fst_key b → a ≡ b
domain_to_fst_key-injective a b h =
    let same : rlabels a ≡ rlabels b =
      sym (split-domain_to_fst_key a) ∙ ap (split dot) h ∙ split-domain_to_fst_key b in
    let pieces : split dot a ≡ split dot b =
      sym (reverse-reverse (split dot a)) ∙ ap reverse same ∙ reverse-reverse (split dot b) in
    sym (join-split a) ∙ ap (join dot) pieces ∙ join-split b

-- Two domains have the same exact key only if they are the same: as tests, equality of the keys is
-- equality of the domains.
pub bytes_eq-domain_to_fst_key :
    (a b : Bytes) → bytes_eq (domain_to_fst_key a) (domain_to_fst_key b) ≡ bytes_eq a b
bytes_eq-domain_to_fst_key a b = elim (Bool-cases (bytes_eq a b)) [
  | inl same ↦
      let e = (bytes_eq_iff a b).0 same in (bytes_eq_iff _ _).1 (ap domain_to_fst_key e) ∙ sym same
  | inr other ↦ elim (Bool-cases (bytes_eq (domain_to_fst_key a) (domain_to_fst_key b))) [
    | inr apart ↦ apart ∙ sym other
    | inl equal ↦
        let yes =
          (bytes_eq_iff a b).1 (domain_to_fst_key-injective a b ((bytes_eq_iff _ _).0 equal)) in
        absurd (ground (arith, yes, other))
  ]
]
