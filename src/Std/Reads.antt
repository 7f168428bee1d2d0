-- ===== src/Std/Reads.antt =====
-- Reads of a slice, which panic out of bounds as Rust's do, and what shows that none does.
use model_lib.Prelude.{
  ℕ, zero, suc, ◌+◌, ◌-◌, ◌*◌, ◌≤◌, ◌<◌, ◌≡◌, inl, inr, refl, arith, Bytes, Bool, true, false, ◌&&◌,
  Bool-cases, Option, none, some, Result, ok, err, ◌>>=◌, ok_or, [], ◌∷◌, length, get_elem?, take,
  drop, ltb, leb, ◌==◌, if◌then◌else◌, ltb→lt, leb→le, le→leb,
}

-- A loop on fuel that runs out counts as a failure of its own.
pub data Panic : Type 0 where
  out_of_bounds out_of_fuel instant_overflow : Panic

abbrev pub Read : Type 0 → Type 0
Read = Result Panic

-- `buf[i]`
unfoldable pub at : Bytes → ℕ → Read ℕ
at buf i = ok_or (get_elem? buf i) out_of_bounds

-- `&buf[from..to]`
unfoldable pub slice : Bytes → ℕ → ℕ → Read Bytes
slice buf from to =
    if leb from to && leb to (length buf)
    then ok (take (to - from) (drop from buf))
    else err out_of_bounds

-- `u16::from_be_bytes([buf[i], buf[i + 1]])`
unfoldable pub be_u16 : Bytes → ℕ → Read ℕ
be_u16 buf i = do high ← at buf i; low ← at buf (i + 1); ok (high * 256 + low)

-- `starts_with`
unfoldable pub starts_with : Bytes → Bytes → Bool
starts_with [] s = true
starts_with (b ∷ prefix) [] = false
starts_with (b ∷ prefix) (c ∷ s) = b == c && starts_with prefix s

-- The code neither panics nor runs out of fuel.
abbrev pub Fine : {A : Type 0} → Read A → Type 0
Fine {A} m = (a : A) × (m ≡ ok a)

pub Fine-bind :
    {A B : Type 0} (m : Read A) (k : A → Read B)
    → Fine m
    → ((a : A) → m ≡ ok a → Fine (k a))
    → Fine (m >>= k)
Fine-bind m k (a, e) h = let (b, f) = h a e in (b, rw e f)

get_elem?-some : (buf : Bytes) (i : ℕ) → i < length buf → (b : ℕ) × (get_elem? buf i ≡ some b)
get_elem?-some [] i h = absurd (omega arith)
get_elem?-some (b ∷ buf) zero h = (b, refl)
get_elem?-some (b ∷ buf) (suc i) h = get_elem?-some buf i (omega arith)

pub at-Fine : (buf : Bytes) (i : ℕ) → i < length buf → Fine (at buf i)
unfolding at
at-Fine buf i h = let (b, e) = get_elem?-some buf i h in (b, rw e refl)

pub slice-Fine :
    (buf : Bytes) (from to : ℕ) → from ≤ to → to ≤ length buf → Fine (slice buf from to)
unfolding slice
slice-Fine buf from to h k =
    (take (to - from) (drop from buf), rw (le→leb from to h, le→leb to (length buf) k) refl)

pub be_u16-Fine : (buf : Bytes) (i : ℕ) → i + 1 < length buf → Fine (be_u16 buf i)
unfolding be_u16
be_u16-Fine buf i h =
    Fine-bind (at buf i) _ (at-Fine buf i (omega arith)) λ high _.
      Fine-bind (at buf (i + 1)) _ (at-Fine buf (i + 1) h) λ low _. (high * 256 + low, refl)

-- A branch taken on a test, with the test as a number's order.
pub Fine-ltb :
    {A : Type 0} (a b : ℕ) (on off : Read A)
    → (a < b → Fine on)
    → (b ≤ a → Fine off)
    → Fine (elim (ltb a b) [ true ↦ on | false ↦ off ])
Fine-ltb a b on off y n = elim (Bool-cases (ltb a b)) [
  | inl e ↦ rw e (y (ltb→lt a b e))
  | inr e ↦ rw e (n (ground (arith, e)))
]

pub Fine-leb :
    {A : Type 0} (a b : ℕ) (on off : Read A)
    → (a ≤ b → Fine on)
    → (b < a → Fine off)
    → Fine (elim (leb a b) [ true ↦ on | false ↦ off ])
Fine-leb a b on off y n = elim (Bool-cases (leb a b)) [
  | inl e ↦ rw e (y (leb→le a b e))
  | inr e ↦ rw e (n (ground (arith, e)))
]

pub Fine-and-leb :
    {A : Type 0} (t : Bool) (a b : ℕ) (on off : Read A)
    → (a ≤ b → Fine on)
    → Fine off
    → Fine (elim (t && leb a b) [ true ↦ on | false ↦ off ])
Fine-and-leb true a b on off y n = Fine-leb a b on off y (λ _. n)
Fine-and-leb false a b on off y n = n

pub Fine-case :
    {A : Type 0} (t : Bool) (on off : Read A)
    → Fine on
    → Fine off
    → Fine (elim t [ true ↦ on | false ↦ off ])
Fine-case true on off y n = y
Fine-case false on off y n = n

-- `?` on an option, in code that returns an option.
abbrev pub and_then : {A B : Type 0} → Option A → (A → Read (Option B)) → Read (Option B)
and_then none k = ok none
and_then (some a) k = k a

pub Fine-and_then :
    {A B : Type 0} (o : Option A) (k : A → Read (Option B))
    → ((a : A) → o ≡ some a → Fine (k a))
    → Fine (and_then o k)
Fine-and_then none k h = (none, refl)
Fine-and_then (some a) k h = h a refl
