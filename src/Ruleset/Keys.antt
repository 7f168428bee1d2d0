-- ===== src/Ruleset/Keys.antt =====
-- The FST keys of src/ruleset/compiler.rs: labels in reverse order, joined by dots.
pub mod Injective
use model_lib.Prelude.{ℕ, Bytes, List, [], ◌∷◌, ◌++◌, reverse, ◌==◌, if◌then◌else◌}

abbrev pub dot : ℕ
dot = b'.'

-- A byte in front of the first piece.
abbrev pub push_first : ℕ → List Bytes → List Bytes
push_first b [] = (b ∷ []) ∷ []
push_first b (p ∷ ps) = (b ∷ p) ∷ ps

-- `str::split` at one ASCII byte: one piece more than there are separators.
abbrev pub split : ℕ → Bytes → List Bytes
split sep [] = [] ∷ []
split sep (b ∷ bs) = let rest = split sep bs in if b == sep then [] ∷ rest else push_first b rest

-- `[&str]::join` with one byte.
abbrev pub join : ℕ → List Bytes → Bytes
join sep [] = []
join sep (p ∷ []) = p
join sep (p ∷ (q ∷ ps)) = p ++ (sep ∷ join sep (q ∷ ps))

-- The labels of a domain, the last first, as `rsplit('.')` yields them.
abbrev pub rlabels : Bytes → List Bytes
rlabels d = reverse (split dot d)

unfoldable pub domain_to_fst_key : Bytes → Bytes
domain_to_fst_key d = join dot (rlabels d)

unfoldable pub suffix_to_fst_key : Bytes → Bytes
suffix_to_fst_key d = join dot (rlabels d) ++ (dot ∷ [])
