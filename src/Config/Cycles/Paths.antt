-- ===== src/Config/Cycles/Paths.antt =====
-- The graph of the outbound groups of src/config/mod.rs: its paths, and the orders that a search
-- keeps of it.
use model_lib.Prelude.{
  ◌≡◌, ◌⊎◌, inl, inr, sym, subst, arith, Bytes, bytes_eq, bytes_eq_iff, bytes_eq_refl, true,
  Bool-cases, List, [], ◌∷◌,
}
use model_lib.Config.Cycles.{Graph, member, contains_key, children_or_none}

pub member-head : (t : Bytes) (xs : List Bytes) → member t (t ∷ xs) ≡ true
member-head t xs = ground (arith, bytes_eq_refl t)

pub member-tail : (t x : Bytes) (xs : List Bytes) → member t xs ≡ true → member t (x ∷ xs) ≡ true
member-tail t x xs h = ground (arith, h)

pub member-cons :
    (t x : Bytes) (xs : List Bytes) → member t (x ∷ xs) ≡ true → (t ≡ x) ⊎ (member t xs ≡ true)
member-cons t x xs h = elim (Bool-cases (bytes_eq t x)) [
  | inl e ↦ inl ((bytes_eq_iff t x).0 e)
  | inr e ↦ inr (ground (arith, h, e))
]

module _ (g : Graph) where
  -- A group has another group as a child.
  abbrev pub Edge : Bytes → Bytes → Type 0
  Edge a b = (member b (children_or_none g a) ≡ true) × (contains_key g b ≡ true)

  -- One edge or more.
  pub data Reaches : Bytes → Bytes → Type 0 where
    step : (a b : Bytes) → Edge a b → Reaches a b
    onward : (a b c : Bytes) → Edge a b → Reaches b c → Reaches a c

  -- The groups that are done stand behind all that they have as a child.
  abbrev pub Done : List Bytes → Type 0
  Done [] = Unit
  Done (v ∷ vs) = ((b : Bytes) → Edge v b → member b vs ≡ true) × Done vs

  Done-Edge :
      (vs : List Bytes) (a b : Bytes) → Done vs → member a vs ≡ true → Edge a b → member b vs ≡ true
  Done-Edge [] a b d m e = absurd (cc)
  Done-Edge (v ∷ vs) a b d m e = elim (member-cons a v vs m) [
    | inl eq ↦ member-tail b v vs (d.0 b (subst (λ x. Edge x b) eq e))
    | inr later ↦ member-tail b v vs (Done-Edge vs a b d.1 later e)
  ]

  Done-Reaches :
      (vs : List Bytes) (a b : Bytes)
      → Done vs
      → member a vs ≡ true
      → Reaches a b
      → member b vs ≡ true
  Done-Reaches vs a b d m (Reaches.step _ _ e) = Done-Edge vs a b d m e
  Done-Reaches vs a b d m (Reaches.onward _ c _ e r) =
      Done-Reaches vs c b d (Done-Edge vs a c d m e) r

  -- Who reaches itself is never done.
  pub Done-acyclic : (vs : List Bytes) (a : Bytes) → Done vs → member a vs ≡ true → ¬ Reaches a a
  Done-acyclic [] a d m = λ r. absurd (cc)
  Done-acyclic (v ∷ vs) a d m = elim (member-cons a v vs m) [
    | inl eq ↦ λ r.
        Done-acyclic vs a d.1
          (first vs a d.1 (subst (λ x. (b : Bytes) → Edge x b → member b vs ≡ true) (sym eq) d.0) r)
          r
    | inr later ↦ Done-acyclic vs a d.1 later
  ]
    where
      first :
          (vs : List Bytes) (a : Bytes)
          → Done vs
          → ((b : Bytes) → Edge a b → member b vs ≡ true)
          → Reaches a a
          → member a vs ≡ true
      first vs a d h (Reaches.step _ _ e) = h a e
      first vs a d h (Reaches.onward _ c _ e r) = Done-Reaches vs c a d (h c e) r

  abbrev pub Below : Bytes → List Bytes → Type 0
  Below v [] = Unit
  Below v (w ∷ vs) = Edge w v

  -- Each group that is being visited is a child of the one below.
  abbrev pub Chain : List Bytes → Type 0
  Chain [] = Unit
  Chain (v ∷ vs) = Below v vs × Chain vs

  and_then : (a b c : Bytes) → Reaches a b → Edge b c → Reaches a c
  and_then a b c (Reaches.step _ _ e) f = Reaches.onward a b c e (Reaches.step b c f)
  and_then a b c (Reaches.onward _ d _ e r) f = Reaches.onward a d c e (and_then d b c r f)

  -- A member of the chain reaches whatever is below its top.
  pub Chain-Reaches :
      (vs : List Bytes) (t c : Bytes) → Chain vs → Below c vs → member t vs ≡ true → Reaches t c
  Chain-Reaches [] t c ch e m = absurd (cc)
  Chain-Reaches (v ∷ vs) t c ch e m = elim (member-cons t v vs m) [
    | inl eq ↦ Reaches.step t c (subst (λ x. Edge x c) (sym eq) e)
    | inr later ↦ and_then t v c (Chain-Reaches vs t v ch.1 ch.0 later) e
  ]
