-- ===== src/Ruleset/Codec/SetKeys.antt =====
-- The keys that `build_domain_fst` and `build_suffix_fst` insert, sorted and without repetitions.
use model_lib.Prelude.{
  ◌≡◌, inl, inr, refl, ap, ◌∙◌, subst, arith, Bytes, bytes_eq, bytes_eq_iff, Bool, true, false,
  ◌||◌, Bool-cases, List, [], ◌∷◌, any,
}
use model_lib.Ruleset.Fst.{bytes_ltb, IsAfter, IsIncreasing}
use model_lib.Ruleset.Compiler.Encode.{insert_key, sort_keys, dedup_after, dedup}

bytes_ltb_asymm : (a b : Bytes) → bytes_ltb a b ≡ true → bytes_ltb b a ≡ false
bytes_ltb_asymm [] [] h = refl
bytes_ltb_asymm [] (y ∷ b) h = refl
bytes_ltb_asymm (x ∷ a) [] h = cc
bytes_ltb_asymm (x ∷ a) (y ∷ b) h = ground (arith, bytes_ltb_asymm a b)

bytes_ltb_total :
    (a b : Bytes) → bytes_ltb a b ≡ false → bytes_eq a b ≡ false → bytes_ltb b a ≡ true
unfolding bytes_eq
bytes_ltb_total [] [] h k = cc
bytes_ltb_total [] (y ∷ b) h k = cc
bytes_ltb_total (x ∷ a) [] h k = refl
bytes_ltb_total (x ∷ a) (y ∷ b) h k = ground (arith, bytes_ltb_total a b)

-- No key is below the one before it.
abbrev IsNotBefore : Bytes → List Bytes → Type 0
IsNotBefore x [] = Unit
IsNotBefore x (y ∷ ys) = bytes_ltb y x ≡ false

abbrev IsSorted : List Bytes → Type 0
IsSorted [] = Unit
IsSorted (x ∷ xs) = IsNotBefore x xs × IsSorted xs

insert_key-IsNotBefore :
    (x k : Bytes) (ks : List Bytes)
    → bytes_ltb k x ≡ false
    → IsNotBefore x ks
    → IsNotBefore x (insert_key k ks)
unfolding insert_key
insert_key-IsNotBefore x k [] h n = h
insert_key-IsNotBefore x k (j ∷ js) h n = elim (Bool-cases (bytes_ltb j k)) [
  | inl below ↦ rw below n
  | inr above ↦ rw above h
]

insert_key-IsSorted : (k : Bytes) (ks : List Bytes) → IsSorted ks → IsSorted (insert_key k ks)
unfolding insert_key
insert_key-IsSorted k [] h = (tt, tt)
insert_key-IsSorted k (j ∷ js) h = elim (Bool-cases (bytes_ltb j k)) [
  | inl below ↦
      rw below (
        insert_key-IsNotBefore j k js (bytes_ltb_asymm j k below) h.0,
        insert_key-IsSorted k js h.1,
      )
  | inr above ↦ rw above (above, h)
]

sort_keys-IsSorted : (ks : List Bytes) → IsSorted (sort_keys ks)
unfolding sort_keys
sort_keys-IsSorted [] = tt
sort_keys-IsSorted (k ∷ ks) = insert_key-IsSorted k (sort_keys ks) (sort_keys-IsSorted ks)

dedup_after-IsIncreasing :
    (last : Bytes) (ks : List Bytes)
    → IsNotBefore last ks
    → IsSorted ks
    → IsAfter last (dedup_after last ks) × IsIncreasing (dedup_after last ks)
unfolding dedup_after
dedup_after-IsIncreasing last [] n h = (tt, tt)
dedup_after-IsIncreasing last (k ∷ ks) n h = elim (Bool-cases (bytes_eq k last)) [
  | inl same ↦ rw same (
      subst (λ x. IsAfter x (dedup_after k ks) × IsIncreasing (dedup_after k ks))
        ((bytes_eq_iff k last).0 same) (dedup_after-IsIncreasing k ks h.0 h.1))
  | inr other ↦ rw other (bytes_ltb_total k last n other, dedup_after-IsIncreasing k ks h.0 h.1)
]

dedup-IsIncreasing : (xs : List Bytes) → IsSorted xs → IsIncreasing (dedup xs)
unfolding dedup
dedup-IsIncreasing [] h = tt
dedup-IsIncreasing (x ∷ xs) h = dedup_after-IsIncreasing x xs h.0 h.1

-- The builder is given its keys in strictly increasing order.
pub dedup-sort_keys-IsIncreasing : (ks : List Bytes) → IsIncreasing (dedup (sort_keys ks))
dedup-sort_keys-IsIncreasing ks = dedup-IsIncreasing (sort_keys ks) (sort_keys-IsSorted ks)

any-insert_key :
    (p : Bytes → Bool) (k : Bytes) (ks : List Bytes) → any p (insert_key k ks) ≡ (p k || any p ks)
unfolding insert_key
any-insert_key p k [] = refl
any-insert_key p k (j ∷ js) = ground (arith, any-insert_key p k js)

any-sort_keys : (p : Bytes → Bool) (ks : List Bytes) → any p (sort_keys ks) ≡ any p ks
unfolding sort_keys
any-sort_keys p [] = refl
any-sort_keys p (k ∷ ks) =
    any-insert_key p k (sort_keys ks) ∙ ap (λ b. p k || b) (any-sort_keys p ks)

any-dedup_after :
    (p : Bytes → Bool) (last : Bytes) (ks : List Bytes)
    → (p last || any p (dedup_after last ks)) ≡ (p last || any p ks)
unfolding dedup_after
any-dedup_after p last [] = refl
any-dedup_after p last (k ∷ ks) = elim (Bool-cases (bytes_eq k last)) [
  | inl same ↦
      rw same
        (let e = ap p ((bytes_eq_iff k last).0 same) in ground (arith, e, any-dedup_after p k ks))
  | inr other ↦ rw other (ap (λ b. p last || b) (any-dedup_after p k ks))
]

any-dedup : (p : Bytes → Bool) (xs : List Bytes) → any p (dedup xs) ≡ any p xs
unfolding dedup
any-dedup p [] = refl
any-dedup p (x ∷ xs) = any-dedup_after p x xs

-- Sorting and removing duplicates keeps the set of keys.
pub any-dedup-sort_keys :
    (p : Bytes → Bool) (ks : List Bytes) → any p (dedup (sort_keys ks)) ≡ any p ks
any-dedup-sort_keys p ks = any-dedup p (sort_keys ks) ∙ any-sort_keys p ks
