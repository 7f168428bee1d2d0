-- ===== src/Std/Rest.antt =====
-- Reads of a slice by what lies behind a position, which is how a description of its bytes
-- speaks of them.
use model_lib.Prelude.{
  ℕ, ◌+◌, ◌-◌, ◌*◌, ◌≡◌, refl, sym, ap, ◌∙◌, arith, Bytes, Bool, true, false, some, ok, ◌>>=◌, [],
  ◌∷◌, ◌++◌, append_assoc, length, get_elem?, drop, length-append, take-append, drop-append, le→leb,
}
use model_lib.Std.Reads.{Read, at, slice, be_u16}

-- `s` lies behind the position.
abbrev pub Rest : Bytes → ℕ → Bytes → Type 0
Rest buf pos s = (front : Bytes) × (buf ≡ front ++ s) × (length front ≡ pos)

pub Rest-length : {buf s : Bytes} {pos : ℕ} → Rest buf pos s → length buf ≡ pos + length s
Rest-length {s = s} (front, e, n) = rw e (length-append front s ∙ ap (λ k. k + length s) n)

pub Rest-skip :
    {buf : Bytes} {pos : ℕ} (xs s : Bytes) → Rest buf pos (xs ++ s) → Rest buf (pos + length xs) s
Rest-skip xs s (front, e, n) = (
  front ++ xs,
  e ∙ sym (append_assoc front xs s),
  length-append front xs ∙ ap (λ k. k + length xs) n,
)

pub Rest-next : {buf s : Bytes} {pos b : ℕ} → Rest buf pos (b ∷ s) → Rest buf (pos + 1) s
Rest-next {s = s} {b = b} r = Rest-skip (b ∷ []) s r

get_elem?-front : (front s : Bytes) (b : ℕ) → get_elem? (front ++ b ∷ s) (length front) ≡ some b
get_elem?-front [] s b = refl
get_elem?-front (x ∷ front) s b = get_elem?-front front s b

pub at-Rest : {buf s : Bytes} {pos b : ℕ} → Rest buf pos (b ∷ s) → at buf pos ≡ ok b
unfolding at
at-Rest {s = s} {b = b} (front, e, n) = rw (e, ← n, get_elem?-front front s b) refl

pub slice-Rest :
    {buf : Bytes} {pos : ℕ} (xs s : Bytes)
    → Rest buf pos (xs ++ s)
    → slice buf pos (pos + length xs) ≡ ok xs
unfolding slice
slice-Rest {buf} {pos} xs s (front, e, n) =
    let whole : length buf ≡ pos + length xs + length s =
      omega (arith, Rest-length (front, e, n), length-append xs s) in
    let size : pos + length xs - pos ≡ length xs = omega arith in
    let tail : drop pos buf ≡ xs ++ s = rw (e, ← n) (drop-append front (xs ++ s)) in
    rw
      (
        le→leb pos (pos + length xs) (omega arith),
        le→leb (pos + length xs) (length buf) (omega (arith, whole)),
        size,
        tail,
        take-append xs s,
      )
      refl

pub be_u16-Rest :
    {buf s : Bytes} {pos a b : ℕ} → Rest buf pos (a ∷ b ∷ s) → be_u16 buf pos ≡ ok (a * 256 + b)
unfolding be_u16
be_u16-Rest r = rw (at-Rest r, at-Rest (Rest-next r)) refl

-- A run, one read or one test at a time.
pub bind-eq :
    {A B : Type 0} {m : Read A} {a : A} (k : A → Read B) {r : Read B}
    → m ≡ ok a
    → k a ≡ r
    → (m >>= k) ≡ r
bind-eq k e h = rw e h

pub taken :
    {A : Type 0} {t : Bool} (on off : A) {r : A}
    → t ≡ true
    → on ≡ r
    → elim t as (λ _. A) [ true ↦ on | false ↦ off ] ≡ r
taken on off e h = rw e h

pub passed :
    {A : Type 0} {t : Bool} (on off : A) {r : A}
    → t ≡ false
    → off ≡ r
    → elim t as (λ _. A) [ true ↦ on | false ↦ off ] ≡ r
passed on off e h = rw e h
