-- ===== src/Ruleset/Matcher/Domains/Exact.antt =====
-- The exact FST that src/ruleset/compiler.rs builds, asked as `matches_exact` of matcher.rs does.
use model_lib.Prelude.{
  ◌≡◌, refl, sym, ap, ◌∙◌, Bytes, bytes_eq, Bool, Option, none, some, ok, ok_or, ok_inj, List, [],
  ◌∷◌, map, set, any, any-map,
}
use model_lib.Ruleset.Error.{parse_error, fst_error}
use model_lib.Ruleset.Fst.{FstCrate, IsLawful, build}
use model_lib.Ruleset.Keys.{domain_to_fst_key}
use model_lib.Ruleset.Keys.Injective.{bytes_eq-domain_to_fst_key}
use model_lib.Ruleset.Trie.{SuffixTrie}
use model_lib.Ruleset.Compiler.Encode.{sort_keys, dedup, build_fst, build_domain_fst}
use model_lib.Ruleset.Codec.SetKeys.{dedup-sort_keys-IsIncreasing, any-dedup-sort_keys}
use model_lib.Ruleset.Matcher.Domains.{sets, legacy, matches_exact}

some_inj {ℓ} : {A : Type ℓ} {a b : A} → ◌≡◌ {A = Option A} (some a) (some b) → a ≡ b
some_inj h = cc

ok_or-some : {E : Type 0} (o : Option Bytes) (e : E) {x : Bytes} → ok_or o e ≡ ok x → o ≡ some x
ok_or-some none e h = cc
ok_or-some {E} (some y) e h = ap some (ok_inj E h)

any_ext : (p q : Bytes → Bool) (xs : List Bytes) → ((x : Bytes) → p x ≡ q x) → any p xs ≡ any q xs
any_ext p q [] h = refl
any_ext p q (x ∷ xs) h = rw (h x, any_ext p q xs h) refl

module _ (fst : FstCrate) (lawful : IsLawful fst) where
  -- The set that opens from the bytes holds the keys.
  contains-build :
      (keys : List Bytes) (bytes : Bytes) (set : fst.Set) (k : Bytes)
      → build fst (dedup (sort_keys keys)) ≡ some bytes
      → fst.open_set bytes ≡ some set
      → fst.contains set k ≡ any (bytes_eq k) keys
  contains-build keys bytes set k built opened =
      let b = lawful.builds (dedup (sort_keys keys)) (dedup-sort_keys-IsIncreasing keys) in
      let bytes_same : b.bytes ≡ bytes = some_inj (sym b.built ∙ built) in
      let set_same : b.set ≡ set =
        some_inj (sym b.opened ∙ ap (λ x. fst.open_set x) bytes_same ∙ opened) in
      ap (λ s. fst.contains s k) (sym set_same) ∙ b.holds k ∙ any-dedup-sort_keys (bytes_eq k) keys

  -- An FST that is built from domains and opened again answers exactly as the hash set of these
  -- domains: it holds a domain exactly if the domain is in the list. The crate keeps what it
  -- documents: increasing keys are accepted, and the set holds these and no other.
  pub matches_exact-build_domain_fst :
      (d0 : Bytes) (ds : List Bytes) (bytes : Bytes) (set : fst.Set) (suffix : Option fst.Set)
      (trie : SuffixTrie) (domain : Bytes)
      → build_domain_fst fst (d0 ∷ ds) ≡ ok bytes
      → fst.open_set bytes ≡ some set
      → matches_exact fst (sets (some set) suffix) (domain_to_fst_key domain) domain
        ≡ matches_exact fst (legacy (d0 ∷ ds) trie) (domain_to_fst_key domain) domain
  unfolding matches_exact build_domain_fst build_fst
  matches_exact-build_domain_fst d0 ds bytes set suffix trie domain built opened =
      contains-build (map domain_to_fst_key (d0 ∷ ds)) bytes set (domain_to_fst_key domain)
        (ok_or-some (build fst (dedup (sort_keys (map domain_to_fst_key (d0 ∷ ds)))))
          (parse_error 0 fst_error) built)
        opened
      ∙ any-map (bytes_eq (domain_to_fst_key domain)) domain_to_fst_key (d0 ∷ ds)
      ∙ any_ext (λ x. bytes_eq (domain_to_fst_key domain) (domain_to_fst_key x)) (bytes_eq domain)
          (d0 ∷ ds) (λ x. bytes_eq-domain_to_fst_key domain x)
