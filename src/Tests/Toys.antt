-- ===== src/Tests/Toys.antt =====
-- Concrete stand-ins for the crates that the rule sets use, and sample rule sets.
use model_lib.Prelude.{
  ℕ, zero, suc, ◌≡◌, ◌≢◌, refl, sym, ap, ◌∙◌, Bytes, bytes_eq, true, false, Option, none, some,
  List, [], ◌∷◌, ◌++◌, append-nil, append_assoc, length, any,
}
use model_lib.Ruleset.Fst.{FstCrate, insert_all, IsLawful}
use model_lib.Ruleset.Matcher.Engine.{RegexCrate}

-- A set is written as its keys: `1 b` for each byte of a key, `0` behind the key.
abbrev write_key : Bytes → Bytes → Bytes
write_key [] rest = 0 ∷ rest
write_key (b ∷ bs) rest = 1 ∷ (b ∷ write_key bs rest)

abbrev write_keys : List Bytes → Bytes
write_keys [] = []
write_keys (k ∷ ks) = write_key k (write_keys ks)

abbrev push_byte : ℕ → List Bytes → List Bytes
push_byte b [] = []
push_byte b (k ∷ ks) = (b ∷ k) ∷ ks

abbrev read_keys : Bytes → List Bytes
read_keys [] = []
read_keys (zero ∷ bs) = [] ∷ read_keys bs
read_keys (suc t ∷ []) = []
read_keys (suc t ∷ (b ∷ bs)) = push_byte b (read_keys bs)

abbrev open_keys : Bytes → Option (List Bytes)
open_keys [] = none
open_keys (b ∷ bs) = some (read_keys bs)

abbrev pub fst_crate : FstCrate
fst_crate = record {
  Builder = List Bytes;
  Set = List Bytes;
  new = some [];
  insert = λ b k. some (b ++ (k ∷ []));
  finish = λ b. some (9 ∷ write_keys b);
  open_set = open_keys;
  contains = λ set k. any (bytes_eq k) set;
  len = length;
}

-- Every pattern is accepted and none matches.
abbrev pub regex_crate : RegexCrate
regex_crate = record {
  RegexSet = List Bytes;
  regex_ok = λ p. true;
  set_new = some;
  set_len = length;
  is_match = λ set s. false;
}

read_keys-write_key : (k rest : Bytes) → read_keys (write_key k rest) ≡ k ∷ read_keys rest
read_keys-write_key [] rest = refl
read_keys-write_key (b ∷ k) rest = ap (push_byte b) (read_keys-write_key k rest)

read_keys-write_keys : (ks : List Bytes) → read_keys (write_keys ks) ≡ ks
read_keys-write_keys [] = refl
read_keys-write_keys (k ∷ ks) =
    read_keys-write_key k (write_keys ks) ∙ ap (◌∷◌ k) (read_keys-write_keys ks)

insert_all-write_keys :
    (ks b : List Bytes) → insert_all fst_crate b ks ≡ some (9 ∷ write_keys (b ++ ks))
insert_all-write_keys [] b = ap (λ x. some (9 ∷ write_keys x)) (sym (append-nil b))
insert_all-write_keys (k ∷ ks) b =
    insert_all-write_keys ks (b ++ (k ∷ []))
    ∙ ap (λ x. some (9 ∷ write_keys x)) (append_assoc b (k ∷ []) ks)

bytes_cons : (b : ℕ) (bs : Bytes) → b ∷ bs ≢ []
bytes_cons b bs e = absurd (cc)

pub fst_crate-IsLawful : IsLawful fst_crate
fst_crate-IsLawful = record {
  builds = λ keys inc. record {
    bytes = 9 ∷ write_keys keys;
    set = keys;
    built = insert_all-write_keys keys [];
    bytes_ne_nil = bytes_cons 9 (write_keys keys);
    opened = ap some (read_keys-write_keys keys);
    holds = λ k. refl;
  };
}
