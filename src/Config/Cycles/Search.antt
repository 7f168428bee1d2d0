-- ===== src/Config/Cycles/Search.antt =====
-- The search of `validate_outbound_group_cycles` of src/config/mod.rs: it ends, and it finds a
-- cycle exactly if there is one.
use model_lib.Prelude.{
  ℕ, zero, suc, ◌+◌, ◌≤◌, ◌<◌, ◌≡◌, ◌↔◌, ◌⊎◌, inl, inr, refl, sym, ◌∙◌, subst, arith, Bytes,
  bytes_eq, bytes_eq_iff, bytes_eq_refl, true, false, Bool-cases, Result, ok, err, List, [], ◌∷◌,
  map, length, if◌then◌else◌,
}
use mathlib.Core.Logic.{⊎_elim}
use model_lib.Config.Outbound.{OutboundConfig}
use model_lib.Config.Cycles.{
  CycleError, cycle, Graph, member, remove, children_of, contains_key, graph_onto, State,
  children_or_none, visit_children, visit, visit_all, validate_outbound_group_cycles,
}
use model_lib.Config.Cycles.Paths.{
  member-head, member-tail, member-cons, Reaches, Done, Done-acyclic, Below, Chain, Chain-Reaches,
}

module _ (g : Graph) where
  -- How many groups are not being visited.
  abbrev free : Graph → List Bytes → ℕ
  free [] vs = 0
  free ((k, cs) ∷ rest) vs = (if member k vs then 0 else 1) + free rest vs

  free-le : (h : Graph) (t : Bytes) (vs : List Bytes) → free h (t ∷ vs) ≤ free h vs
  free-le [] t vs = omega arith
  free-le ((k, cs) ∷ h) t vs = ground (arith, free-le h t vs)

  free-lt :
      (h : Graph) (t : Bytes) (vs : List Bytes)
      → contains_key h t ≡ true
      → member t vs ≡ false
      → free h (t ∷ vs) < free h vs
  unfolding contains_key children_of
  free-lt [] t vs c m = absurd (cc)
  free-lt ((k, cs) ∷ h) t vs c m = elim (Bool-cases (bytes_eq t k)) [
    | inl e ↦
        let eq : t ≡ k = (bytes_eq_iff t k).0 e in
        let here : member k (t ∷ vs) ≡ true =
          subst (λ x. member x (t ∷ vs) ≡ true) eq (member-head t vs) in
        let gone : member k vs ≡ false = subst (λ x. member x vs ≡ false) eq m in
        rw (here, gone) (omega (arith, free-le h t vs))
    | inr e ↦ let rest = free-lt h t vs (ground (arith, c, e)) m in ground (arith, rest)
  ]

  remove-absent : (t : Bytes) (vs : List Bytes) → member t vs ≡ false → remove t vs ≡ vs
  unfolding remove
  remove-absent t [] h = refl
  remove-absent t (v ∷ vs) h = ground (arith, h, remove-absent t vs)

  remove-added : (t : Bytes) (vs : List Bytes) → member t vs ≡ false → remove t (t ∷ vs) ≡ vs
  unfolding remove
  remove-added t vs h = ground (arith, bytes_eq_refl t, remove-absent t vs h)

  Grows : List Bytes → List Bytes → Type 0
  Grows a b = (x : Bytes) → member x a ≡ true → member x b ≡ true

  -- A run gives the tags that are done, or a group that reaches itself.
  Ends : (List Bytes → Type 0) → List Bytes → List Bytes → Result CycleError State → Type 0
  Ends P visiting visited r =
      ((done : List Bytes) × (r ≡ ok (visiting, done)) × Done g done × Grows visited done × P done)
      ⊎ ((t : Bytes) × (r ≡ err (cycle t)) × Reaches g t t)

  children-Ends :
      (visitor : Bytes → State → Result CycleError State) (visiting : List Bytes)
      → ((c : Bytes) (visited : List Bytes)
          → contains_key g c ≡ true
          → Below g c visiting
          → Done g visited
          → Ends (λ done. member c done ≡ true) visiting visited (visitor c (visiting, visited)))
      → (cs visited : List Bytes)
      → ((c : Bytes) → member c cs ≡ true → contains_key g c ≡ true → Below g c visiting)
      → Done g visited
      → Ends
          (λ done.
            (c : Bytes) → member c cs ≡ true → contains_key g c ≡ true → member c done ≡ true)
          visiting
          visited
          (visit_children visitor g cs (visiting, visited))
  unfolding visit_children Ends Grows
  children-Ends visitor visiting ih [] visited below d =
      inl (visited, refl, d, λ x m. m, λ c m k. absurd (cc))
  children-Ends visitor visiting ih (c ∷ cs) visited below d =
      elim (Bool-cases (contains_key g c)) [
        | inr out ↦
            elim (children-Ends visitor visiting ih cs visited
              (λ x m. below x (member-tail x c cs m)) d) [
                | inr (t, f, r) ↦ inr (t, ground (arith, out, f), r)
                | inl (done, f, d2, more, all) ↦ inl (
                  done,
                  ground (arith, out, f),
                  d2,
                  more,
                  λ x m k.
                      ⊎_elim (λ eq. absurd (cc (subst (λ y. contains_key g y ≡ true) eq k, out)))
                        (λ later. all x later k) (member-cons x c cs m),
                )
              ]
        | inl here ↦ elim (ih c visited here (below c (member-head c cs) here) d) [
          | inr (t, e, r) ↦ inr (t, ground (arith, here, e), r)
          | inl (mid, e, d1, grows, found) ↦
              elim (children-Ends visitor visiting ih cs mid (λ x m. below x (member-tail x c cs m))
                d1) [
                  | inr (t, f, r) ↦ inr (t, ground (arith, here, e, f), r)
                  | inl (done, f, d2, more, all) ↦ inl (
                    done,
                    ground (arith, here, e, f),
                    d2,
                    λ x m. more x (grows x m),
                    λ x m k.
                        ⊎_elim (λ eq. subst (λ y. member y done ≡ true) (sym eq) (more c found))
                          (λ later. all x later k) (member-cons x c cs m),
                  )
                ]
        ]
      ]

  visit-Ends :
      (fuel : ℕ) (tag : Bytes) (visiting visited : List Bytes)
      → contains_key g tag ≡ true
      → Chain g visiting
      → Below g tag visiting
      → free g visiting < fuel
      → Done g visited
      → Ends
          (λ done. member tag done ≡ true)
          visiting
          visited
          (visit fuel g tag (visiting, visited))
  unfolding visit Ends Grows
  visit-Ends zero tag visiting visited k ch b f d = absurd (omega arith)
  visit-Ends (suc fuel) tag visiting visited k ch b f d = elim (Bool-cases (member tag visited)) [
    | inl known ↦ inl (visited, ground (arith, known), d, λ x m. m, known)
    | inr new ↦ elim (Bool-cases (member tag visiting)) [
      | inl again ↦
          inr (tag, ground (arith, new, again), Chain-Reaches g visiting tag tag ch b again)
      | inr fresh ↦
          elim (children-Ends (visit fuel g) (tag ∷ visiting)
            (λ c v here below dv.
              visit-Ends fuel c (tag ∷ visiting) v here (b, ch) below
                (omega (arith, free-lt g tag visiting k fresh)) dv)
            (children_or_none g tag) visited (λ c m here. (m, here)) d) [
              | inr (t, e, r) ↦ inr (t, ground (arith, new, fresh, e), r)
              | inl (done, e, d1, grows, all) ↦ inl (
                tag ∷ done,
                ground (arith, new, fresh, e, remove-added tag visiting fresh),
                ((λ c edge. all c edge.0 edge.1), d1),
                (λ x m. member-tail x tag done (grows x m)),
                member-head tag done,
              )
            ]
    ]
  ]

  visit_all-Ends :
      (fuel : ℕ) (keys visited : List Bytes)
      → ((t : Bytes) → member t keys ≡ true → contains_key g t ≡ true)
      → free g [] < fuel
      → Done g visited
      → ((visit_all fuel g keys ([], visited) ≡ ok tt)
          × ((done : List Bytes) × Done g done
              × Grows visited done
              × ((t : Bytes) → member t keys ≡ true → member t done ≡ true)))
        ⊎ ((t : Bytes) × (visit_all fuel g keys ([], visited) ≡ err (cycle t)) × Reaches g t t)
  unfolding visit_all Ends Grows
  visit_all-Ends fuel [] visited known f d =
      inl (refl, (visited, d, (λ x m. m), λ t m. absurd (cc)))
  visit_all-Ends fuel (t ∷ keys) visited known f d =
      elim (visit-Ends fuel t [] visited (known t (member-head t keys)) tt tt f d) [
        | inr (x, e, r) ↦ inr (x, ground (arith, e), r)
        | inl (mid, e, d1, grows, found) ↦
            elim (visit_all-Ends fuel keys mid (λ x m. known x (member-tail x t keys m)) f d1) [
              | inr (x, h, r) ↦ inr (x, ground (arith, e, h), r)
              | inl (h, (done, d2, more, all)) ↦ inl (
                ground (arith, e, h),
                (
                  done,
                  d2,
                  (λ x m. more x (grows x m)),
                  λ x m.
                      ⊎_elim (λ eq. subst (λ y. member y done ≡ true) (sym eq) (more t found))
                        (λ later. all x later) (member-cons x t keys m),
                ),
              )
            ]
      ]

  free-length : (h : Graph) → free h [] ≡ length h
  free-length [] = refl
  free-length ((k, cs) ∷ h) = omega (arith, free-length h)

  Reaches-key : (a b : Bytes) → Reaches g a b → contains_key g b ≡ true
  Reaches-key a b (Reaches.step _ _ e) = e.1
  Reaches-key a b (Reaches.onward _ c _ e r) = Reaches-key c b r

-- The keys of a graph, each once or more, in any order.
abbrev pub KeysOf : Graph → List Bytes → Type 0
KeysOf g keys = (t : Bytes) → (member t keys ≡ true) ↔ (contains_key g t ≡ true)

member-keys : (g : Graph) (t : Bytes) → member t (map (λ e. e.0) g) ≡ contains_key g t
unfolding children_of contains_key
member-keys [] t = refl
member-keys ((k, cs) ∷ g) t = ground (arith, member-keys g t)

-- The keys in the order of the list.
pub keys-KeysOf : (g : Graph) → KeysOf g (map (λ e. e.0) g)
keys-KeysOf g t = (λ m. sym (member-keys g t) ∙ m, λ c. member-keys g t ∙ c)

-- The check of the groups ends, and decides whether there is a cycle: it accepts only if no group
-- is reached from itself over its children that are groups, and else it names a group that is,
-- in whatever order the hash map lists its keys. The recursion is never deeper than there
-- are groups.
pub validate_outbound_group_cycles-Reaches :
    (outbounds : List OutboundConfig) (keys : List Bytes)
    → KeysOf (graph_onto [] outbounds) keys
    → ((validate_outbound_group_cycles outbounds keys ≡ ok tt)
        × ((a : Bytes) → ¬ Reaches (graph_onto [] outbounds) a a))
      ⊎ ((t : Bytes) × (validate_outbound_group_cycles outbounds keys ≡ err (cycle t))
          × Reaches (graph_onto [] outbounds) t t)
unfolding validate_outbound_group_cycles
validate_outbound_group_cycles-Reaches outbounds keys k =
    let g = graph_onto [] outbounds in
    elim (visit_all-Ends g (length g + 1) keys [] (λ t. (k t).0) (omega (arith, free-length g g))
      tt) [
        | inr r ↦ inr r
        | inl (e, (done, d, grows, all)) ↦
            inl (e, λ a r. Done-acyclic g done a d (all a ((k a).1 (Reaches-key g a a r))) r)
      ]
