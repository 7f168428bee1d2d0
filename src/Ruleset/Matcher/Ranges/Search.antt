-- ===== src/Ruleset/Matcher/Ranges/Search.antt =====
-- The lookup of `IpRanges` in src/ruleset/matcher.rs against the plain list of ranges.
use model_lib.Prelude.{
  ℕ, zero, suc, ◌≤◌, ◌≡◌, inl, inr, refl, ap, ◌∙◌, arith, true, false, Bool-cases, List, [], ◌∷◌,
  any, All, leb,
}
use model_lib.Ruleset.Matcher.Ranges.{Range, build_ranges, partition_point, contains_at, contains}
use model_lib.Ruleset.Matcher.Ranges.Build.{
  inside, IsRange, IsAbove, IsSeparated, build_ranges-IsSeparated, any-build_ranges,
}

none_above :
    (addr n : ℕ) (rs : List Range)
    → addr ≤ n
    → IsAbove n rs
    → IsSeparated rs
    → any (inside addr) rs ≡ false
none_above addr n [] h above hs = refl
none_above addr n (r ∷ rs) h above hs =
    ground (arith, none_above addr r.1 rs (omega arith) hs.1 hs.2)

-- Where no lower bound is reached, no range holds the address.
none_at_zero :
    (addr : ℕ) (rs : List Range)
    → IsSeparated rs
    → partition_point addr rs ≡ 0
    → any (inside addr) rs ≡ false
unfolding partition_point
none_at_zero addr [] hs e = refl
none_at_zero addr (r ∷ rs) hs e = elim (Bool-cases (leb r.0 addr)) [
  | inl reached ↦ absurd (ground arith)
  | inr below ↦ ground (arith, none_above addr r.1 rs (ground arith) hs.1 hs.2)
]

-- Where a lower bound is reached, the ranges in front of it end below the address.
outside_at_suc :
    (addr i : ℕ) (r : Range) (rs : List Range)
    → IsAbove r.1 rs
    → partition_point addr rs ≡ suc i
    → inside addr r ≡ false
unfolding partition_point
outside_at_suc addr i r [] above e = absurd (omega arith)
outside_at_suc addr i r (s ∷ ss) above e = elim (Bool-cases (leb s.0 addr)) [
  | inl reached ↦ ground arith
  | inr below ↦ absurd (ground arith)
]

contains_at_step :
    (addr n : ℕ) (r : Range) (rs : List Range)
    → IsSeparated (r ∷ rs)
    → leb r.0 addr ≡ true
    → partition_point addr rs ≡ n
    → contains_at rs n addr ≡ any (inside addr) rs
    → contains_at (r ∷ rs) (suc n) addr ≡ any (inside addr) (r ∷ rs)
unfolding contains_at
contains_at_step addr zero r rs hs reached e ih = ground (arith, none_at_zero addr rs hs.2 e)
contains_at_step addr (suc i) r rs hs reached e ih = rw (outside_at_suc addr i r rs hs.1 e) ih

partition_point-reached :
    (addr : ℕ) (r : Range) (rs : List Range)
    → leb r.0 addr ≡ true
    → partition_point addr (r ∷ rs) ≡ suc (partition_point addr rs)
unfolding partition_point
partition_point-reached addr r rs h = rw h

partition_point-below :
    (addr : ℕ) (r : Range) (rs : List Range)
    → leb r.0 addr ≡ false
    → partition_point addr (r ∷ rs) ≡ 0
unfolding partition_point
partition_point-below addr r rs h = rw h

below_all :
    (addr : ℕ) (r : Range) (rs : List Range)
    → IsSeparated (r ∷ rs)
    → leb r.0 addr ≡ false
    → contains_at (r ∷ rs) 0 addr ≡ any (inside addr) (r ∷ rs)
unfolding contains_at
below_all addr r rs hs h = ground (arith, none_above addr r.1 rs (ground arith) hs.1 hs.2)

contains_at-separated :
    (addr : ℕ) (rs : List Range)
    → IsSeparated rs
    → contains_at rs (partition_point addr rs) addr ≡ any (inside addr) rs
contains_at-separated addr [] hs = unfold partition_point contains_at in refl
contains_at-separated addr (r ∷ rs) hs = elim (Bool-cases (leb r.0 addr)) [
  | inl reached ↦
      ap (λ n. contains_at (r ∷ rs) n addr) (partition_point-reached addr r rs reached)
      ∙ contains_at_step addr _ r rs hs reached refl (contains_at-separated addr rs hs.2)
  | inr below ↦
      ap (λ n. contains_at (r ∷ rs) n addr) (partition_point-below addr r rs below)
      ∙ below_all addr r rs hs below
]

contains-separated :
    (addr : ℕ) (rs : List Range) → IsSeparated rs → contains rs addr ≡ any (inside addr) rs
unfolding contains
contains-separated addr [] hs = refl
contains-separated addr (r ∷ rs) hs = contains_at-separated addr (r ∷ rs) hs

-- The sorted and merged index, searched by its partition point, holds an address exactly if one
-- of the ranges that it was built from does. No range is empty.
pub contains-build_ranges :
    (addr : ℕ) (rs : List Range)
    → All IsRange rs
    → contains (build_ranges rs) addr ≡ any (inside addr) rs
contains-build_ranges addr rs h =
    contains-separated addr (build_ranges rs) (build_ranges-IsSeparated rs h)
    ∙ any-build_ranges addr rs h
