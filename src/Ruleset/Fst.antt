-- ===== src/Ruleset/Fst.antt =====
-- The `fst` crate, of which src/ruleset/ calls `SetBuilder` and `Set`: a parameter of the model.
use model_lib.Prelude.{
  ℕ, Bytes, ◌≡◌, ◌≢◌, Bool, true, false, Option, none, some, List, [], ◌∷◌, ltb, ◌==◌,
  if◌then◌else◌, any, bytes_eq,
}

pub record FstCrate : Type 1 where
  pub Builder : Type 0
  pub Set : Type 0
  -- `SetBuilder::new` on an empty buffer, `insert`, and `finish`, which leaves the bytes
  pub new : Option Builder
  pub insert : Builder → Bytes → Option Builder
  pub finish : Builder → Option Bytes
  -- `Set::new`, `contains` and `len`
  pub open_set : Bytes → Option Set
  pub contains : Set → Bytes → Bool
  pub len : Set → ℕ

-- The order of byte strings, in which the builder wants its keys.
abbrev pub bytes_ltb : Bytes → Bytes → Bool
bytes_ltb [] [] = false
bytes_ltb [] (y ∷ ys) = true
bytes_ltb (x ∷ xs) [] = false
bytes_ltb (x ∷ xs) (y ∷ ys) =
    let rest = bytes_ltb xs ys in if ltb x y then true else if x == y then rest else false

abbrev pub IsAfter : Bytes → List Bytes → Type 0
IsAfter x [] = Unit
IsAfter x (y ∷ ys) = bytes_ltb x y ≡ true

abbrev pub IsIncreasing : List Bytes → Type 0
IsIncreasing [] = Unit
IsIncreasing (x ∷ xs) = IsAfter x xs × IsIncreasing xs

module _ (fst : FstCrate) where
  open fst use {Builder, new, insert, finish, open_set, contains}

  -- The loop `for key in &keys { builder.insert(key)? }` and the `finish()` behind it.
  abbrev pub insert_all : Builder → List Bytes → Option Bytes
  insert_all b [] = finish b
  insert_all b (k ∷ ks) = elim (insert b k) [ none ↦ none | some b' ↦ insert_all b' ks ]

  abbrev pub build : List Bytes → Option Bytes
  build keys = elim new [ none ↦ none | some b ↦ insert_all b keys ]

  -- What the crate documents: keys inserted in increasing order are accepted, and the bytes
  -- written open as the set of these keys. The bytes are never empty: they begin with a header.
  pub record Builds (keys : List Bytes) : Type 0 where
    pub bytes : Bytes
    pub set : fst.Set
    pub built : build keys ≡ some bytes
    pub bytes_ne_nil : bytes ≢ []
    pub opened : open_set bytes ≡ some set
    pub holds : (k : Bytes) → contains set k ≡ any (bytes_eq k) keys

  pub record IsLawful : Type 0 where
    pub builds : (keys : List Bytes) → IsIncreasing keys → Builds keys
