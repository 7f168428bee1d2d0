-- ===== src/Config/Validate/Loops.antt =====
-- The loops of `Config::validate` of src/config/mod.rs.
use model_lib.Prelude.{
  ◌≡◌, inl, inr, sym, subst, arith, Bytes, bytes_eq, Bool, true, not, ◌||◌, Bool-cases, Result, ok,
  >>=-eq-ok, refuse_if-eq-ok, ok_inj, List, [], ◌∷◌, any, All,
}
use model_lib.Config.Cycles.{member}
use model_lib.Config.Cycles.Paths.{member-tail}
use model_lib.Config.Validate.{ValidateError, collect, check_known, check_each, distinct}

pub collect-known :
    {A : Type 0} (tag : A → Bytes) (duplicate : Bytes → ValidateError)
    (check : A → Result ValidateError (Unit {0})) (acc : List Bytes) (xs : List A)
    {tags : List Bytes}
    → collect tag duplicate check acc xs ≡ ok tags
    → (t : Bytes) → member t tags ≡ true
    → (member t acc || any (λ x. bytes_eq t (tag x)) xs) ≡ true
unfolding collect
collect-known tag duplicate check acc [] h t m =
    ground (arith, subst (λ x. member t x ≡ true) (sym (ok_inj _ h)) m)
collect-known tag duplicate check acc (x ∷ xs) h t m =
    let (_, h1) = refuse_if-eq-ok (member (tag x) acc) (duplicate (tag x)) _ h in
    let (_, _, h2) = >>=-eq-ok (check x) _ h1 in
    let ih = collect-known tag duplicate check (tag x ∷ acc) xs h2 t m in
    swap (bytes_eq t (tag x)) (member t acc) (any (λ y. bytes_eq t (tag y)) xs) ih
  where
    swap : (a b c : Bool) → ((a || b) || c) ≡ true → (b || (a || c)) ≡ true
    swap a b c h = ground (arith, h)

pub check_known-All :
    (unknown : Bytes → ValidateError) (known ts : List Bytes)
    → check_known unknown known ts ≡ ok tt
    → All (λ t. member t known ≡ true) ts
unfolding check_known
check_known-All unknown known [] h = tt
check_known-All unknown known (t ∷ ts) h =
    let (found, later) = refuse_if-eq-ok (not (member t known)) (unknown t) _ h in
    (ground (arith, found), check_known-All unknown known ts later)

pub check_each-All :
    {A : Type 0} (check : A → Result ValidateError (Unit {0})) (xs : List A)
    → check_each check xs ≡ ok tt
    → All (λ x. check x ≡ ok tt) xs
unfolding check_each
check_each-All check [] h = tt
check_each-All check (x ∷ xs) h =
    let (_, here, later) = >>=-eq-ok (check x) _ h in (here, check_each-All check xs later)

pub All-zip3 :
    {A : Type 0} {P Q R S : A → Type 0} (xs : List A)
    → ((x : A) → P x → Q x → R x → S x)
    → All P xs
    → All Q xs
    → All R xs
    → All S xs
All-zip3 [] f p q r = tt
All-zip3 (x ∷ xs) f p q r = (f x p.0 q.0 r.0, All-zip3 xs f p.1 q.1 r.1)

pub member-distinct :
    (ts : List Bytes) (t : Bytes) → member t (distinct ts) ≡ true → member t ts ≡ true
unfolding distinct
member-distinct [] t m = m
member-distinct (x ∷ ts) t m = elim (Bool-cases (member t (distinct ts))) [
  | inl e ↦ member-tail t x ts (member-distinct ts t e)
  | inr e ↦ elim (Bool-cases (member x (distinct ts))) [
    | inl f ↦ ground (arith, e, f, m)
    | inr f ↦ ground (arith, e, f, m)
  ]
]
