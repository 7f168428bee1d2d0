-- ===== src/Ruleset/Matcher/Ranges/Build.antt =====
-- `IpRanges::build` of src/ruleset/matcher.rs: the ranges that it sorts and merges.
use model_lib.Prelude.{
  ℕ, ◌≤◌, ◌<◌, ◌≡◌, inl, inr, refl, ap, ◌∙◌, arith, Bool, ◌&&◌, ◌||◌, Bool-cases, List, [], ◌∷◌,
  any, All, ltb, leb,
}
use model_lib.Ruleset.Matcher.Ranges.{
  Range, insert_range, sort_ranges, merge_from, merge_ranges, build_ranges,
}

abbrev pub inside : ℕ → Range → Bool
inside addr r = leb r.0 addr && leb addr r.1

abbrev pub IsRange : Range → Type 0
IsRange r = r.0 ≤ r.1

abbrev IsNotBelow : ℕ → List Range → Type 0
IsNotBelow n [] = Unit
IsNotBelow n (r ∷ rs) = n ≤ r.0

-- Sorted by the lower bounds.
abbrev IsSorted : List Range → Type 0
IsSorted [] = Unit
IsSorted (r ∷ rs) = IsNotBelow r.0 rs × IsSorted rs

insert_range-IsNotBelow :
    (n : ℕ) (r : Range) (rs : List Range)
    → n ≤ r.0
    → IsNotBelow n rs
    → IsNotBelow n (insert_range r rs)
unfolding insert_range
insert_range-IsNotBelow n r [] h k = h
insert_range-IsNotBelow n r (s ∷ ss) h k = elim (Bool-cases (ltb s.0 r.0)) [
  | inl below ↦ rw below k
  | inr above ↦ rw above h
]

insert_range-IsSorted : (r : Range) (rs : List Range) → IsSorted rs → IsSorted (insert_range r rs)
unfolding insert_range
insert_range-IsSorted r [] h = (tt, tt)
insert_range-IsSorted r (s ∷ ss) h = elim (Bool-cases (ltb s.0 r.0)) [
  | inl below ↦
      rw below (insert_range-IsNotBelow s.0 r ss (ground arith) h.0, insert_range-IsSorted r ss h.1)
  | inr above ↦ rw above (ground arith, h)
]

sort_ranges-IsSorted : (rs : List Range) → IsSorted (sort_ranges rs)
unfolding sort_ranges
sort_ranges-IsSorted [] = tt
sort_ranges-IsSorted (r ∷ rs) = insert_range-IsSorted r (sort_ranges rs) (sort_ranges-IsSorted rs)

insert_range-All :
    (r : Range) (rs : List Range) → IsRange r → All IsRange rs → All IsRange (insert_range r rs)
unfolding insert_range
insert_range-All r [] h k = (h, tt)
insert_range-All r (s ∷ ss) h k = elim (Bool-cases (ltb s.0 r.0)) [
  | inl below ↦ rw below (k.0, insert_range-All r ss h k.1)
  | inr above ↦ rw above (h, k)
]

sort_ranges-All : (rs : List Range) → All IsRange rs → All IsRange (sort_ranges rs)
unfolding sort_ranges
sort_ranges-All [] h = tt
sort_ranges-All (r ∷ rs) h = insert_range-All r (sort_ranges rs) h.0 (sort_ranges-All rs h.1)

any-insert_range :
    (p : Range → Bool) (r : Range) (rs : List Range) → any p (insert_range r rs) ≡ (p r || any p rs)
unfolding insert_range
any-insert_range p r [] = refl
any-insert_range p r (s ∷ ss) = ground (arith, any-insert_range p r ss)

any-sort_ranges : (p : Range → Bool) (rs : List Range) → any p (sort_ranges rs) ≡ any p rs
unfolding sort_ranges
any-sort_ranges p [] = refl
any-sort_ranges p (r ∷ rs) =
    any-insert_range p r (sort_ranges rs) ∙ ap (λ b. p r || b) (any-sort_ranges p rs)

-- Ranges with gaps between them, in increasing order.
abbrev pub IsAbove : ℕ → List Range → Type 0
IsAbove n [] = Unit
IsAbove n (r ∷ rs) = n < r.0

abbrev pub IsSeparated : List Range → Type 0
IsSeparated [] = Unit
IsSeparated (r ∷ rs) = IsRange r × IsAbove r.1 rs × IsSeparated rs

IsNotBelow-trans : (m n : ℕ) (rs : List Range) → m ≤ n → IsNotBelow n rs → IsNotBelow m rs
IsNotBelow-trans m n [] h k = tt
IsNotBelow-trans m n (r ∷ rs) h k = omega arith

any-merge_from :
    (addr : ℕ) (last : Range) (rs : List Range)
    → IsRange last
    → IsNotBelow last.0 rs
    → IsSorted rs
    → All IsRange rs
    → any (inside addr) (merge_from last rs) ≡ (inside addr last || any (inside addr) rs)
unfolding merge_from
any-merge_from addr last [] hl hb hs ha = refl
any-merge_from addr last ((lo, hi) ∷ rs) hl hb hs ha = elim (Bool-cases (leb lo last.1)) [
  | inr apart ↦
      rw apart
        (ap (λ b. inside addr last || b) (any-merge_from addr (lo, hi) rs ha.0 hs.0 hs.1 ha.1))
  | inl overlap ↦ rw overlap (elim (Bool-cases (ltb last.1 hi)) [
    | inl longer ↦ rw longer (
        any-merge_from addr (last.0, hi) rs (ground arith) (IsNotBelow-trans last.0 lo rs hb hs.0)
          hs.1 ha.1
        ∙ ground arith)
    | inr shorter ↦ rw shorter (
        any-merge_from addr last rs hl (IsNotBelow-trans last.0 lo rs hb hs.0) hs.1 ha.1
        ∙ ground arith)
  ])
]

merge_from-IsAbove :
    (n : ℕ) (last : Range) (rs : List Range) → n < last.0 → IsAbove n (merge_from last rs)
unfolding merge_from
merge_from-IsAbove n last [] h = h
merge_from-IsAbove n last ((lo, hi) ∷ rs) h = elim (Bool-cases (leb lo last.1)) [
  | inr apart ↦ rw apart h
  | inl overlap ↦ rw overlap (elim (Bool-cases (ltb last.1 hi)) [
    | inl longer ↦ rw longer (merge_from-IsAbove n (last.0, hi) rs h)
    | inr shorter ↦ rw shorter (merge_from-IsAbove n last rs h)
  ])
]

merge_from-IsSeparated :
    (last : Range) (rs : List Range)
    → IsRange last
    → All IsRange rs
    → IsSeparated (merge_from last rs)
unfolding merge_from
merge_from-IsSeparated last [] hl ha = (hl, tt, tt)
merge_from-IsSeparated last ((lo, hi) ∷ rs) hl ha = elim (Bool-cases (leb lo last.1)) [
  | inr apart ↦ rw apart (
    hl,
    merge_from-IsAbove last.1 (lo, hi) rs (ground arith),
    merge_from-IsSeparated (lo, hi) rs ha.0 ha.1,
  )
  | inl overlap ↦ rw overlap (elim (Bool-cases (ltb last.1 hi)) [
    | inl longer ↦ rw longer (merge_from-IsSeparated (last.0, hi) rs (ground arith) ha.1)
    | inr shorter ↦ rw shorter (merge_from-IsSeparated last rs hl ha.1)
  ])
]

merge_ranges-IsSeparated : (rs : List Range) → All IsRange rs → IsSeparated (merge_ranges rs)
unfolding merge_ranges
merge_ranges-IsSeparated [] h = tt
merge_ranges-IsSeparated (r ∷ rs) h = merge_from-IsSeparated r rs h.0 h.1

any-merge_ranges :
    (addr : ℕ) (rs : List Range)
    → IsSorted rs
    → All IsRange rs
    → any (inside addr) (merge_ranges rs) ≡ any (inside addr) rs
unfolding merge_ranges
any-merge_ranges addr [] hs ha = refl
any-merge_ranges addr (r ∷ rs) hs ha = any-merge_from addr r rs ha.0 hs.0 hs.1 ha.1

-- What `build` makes of ranges none of which is empty is increasing, and no two ranges overlap.
pub build_ranges-IsSeparated : (rs : List Range) → All IsRange rs → IsSeparated (build_ranges rs)
unfolding build_ranges
build_ranges-IsSeparated rs h = merge_ranges-IsSeparated (sort_ranges rs) (sort_ranges-All rs h)

-- Sorting and merging keep the set of addresses.
pub any-build_ranges :
    (addr : ℕ) (rs : List Range)
    → All IsRange rs
    → any (inside addr) (build_ranges rs) ≡ any (inside addr) rs
unfolding build_ranges
any-build_ranges addr rs h =
    any-merge_ranges addr (sort_ranges rs) (sort_ranges-IsSorted rs) (sort_ranges-All rs h)
    ∙ any-sort_ranges (inside addr) rs
