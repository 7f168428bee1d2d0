-- ===== src/Tests/Lru.antt =====
-- A concrete stand-in for the `lru` crate: a list, the latest use first.
use model_lib.Prelude.{
  ℕ, zero, suc, ◌<◌, ◌≡◌, inl, inr, refl, sym, ap, ◌∙◌, arith, false, Bool-cases, Option, none,
  some, Option-cases, List, [], ◌∷◌, length, take, if◌then◌else◌,
}
use model_lib.Dns.Keys.{CacheKey, key_eq, key_eq_iff, key_eq_refl}
use model_lib.Dns.Lru.{CacheEntry, LruCrate, IsLawful}

abbrev pub Items : Type 0
Items = List (CacheKey × CacheEntry)

pub record Recent : Type 0 where
  pub room : ℕ
  pub items : Items

unfoldable pub seek : CacheKey → Items → Option CacheEntry
seek q [] = none
seek q ((k, e) ∷ l) = let later = seek q l in if key_eq k q then some e else later

unfoldable pub without : CacheKey → Items → Items
without q [] = []
without q ((k, e) ∷ l) = let later = without q l in if key_eq k q then later else (k, e) ∷ later

unfoldable pub to_front : CacheKey → Option CacheEntry → Items → Items
to_front k none l = l
to_front k (some e) l = (k, e) ∷ without k l

unfoldable pub lru_crate : LruCrate
unfolding seek without to_front
lru_crate = record {
  LruCache = Recent;
  new = λ n. record { room = n; items = [] };
  get = λ s k. (record s { items = to_front k (seek k s.items) s.items }, seek k s.items);
  put = λ s k e. record s { items = take s.room ((k, e) ∷ without k s.items) };
  pop = λ s k. record s { items = without k s.items };
  len = λ s. length s.items;
  cap = λ s. s.room;
  peek = λ s k. seek k s.items;
}

seek-without_same : (k : CacheKey) (l : Items) → seek k (without k l) ≡ none
unfolding seek without
seek-without_same k [] = refl
seek-without_same k ((j, s) ∷ l) = ground (arith, seek-without_same k l)

seek-without_other :
    (k q : CacheKey) (l : Items) → key_eq k q ≡ false → seek q (without k l) ≡ seek q l
unfolding seek without
seek-without_other k q [] h = refl
seek-without_other k q ((j, s) ∷ l) h = elim (Bool-cases (key_eq j k)) [
  | inl same ↦
      let eq : j ≡ k = (key_eq_iff j k).0 same in
      ground (arith, same, eq, h, seek-without_other k q l h)
  | inr other ↦ ground (arith, other, seek-without_other k q l h)
]

seek-take :
    (q : CacheKey) (n : ℕ) (l : Items) (e : CacheEntry)
    → seek q (take n l) ≡ some e
    → seek q l ≡ some e
unfolding seek
seek-take q zero l e h = absurd (cc)
seek-take q (suc n) [] e h = h
seek-take q (suc n) ((j, s) ∷ l) e h = ground (arith, seek-take q n l e)

seek-to_front : (k q : CacheKey) (l : Items) → seek q (to_front k (seek k l) l) ≡ seek q l
unfolding seek to_front
seek-to_front k q l = elim (Option-cases (seek k l)) [
  | inl cold ↦ rw cold refl
  | inr (e, hot) ↦ elim (Bool-cases (key_eq k q)) [
    | inl same ↦
        let eq : k ≡ q = (key_eq_iff k q).0 same in
        rw (hot, same) (sym (sym (ap (λ x. seek x l) eq) ∙ hot))
    | inr other ↦ rw (hot, other) (seek-without_other k q l other)
  ]
]

seek-front :
    (k : CacheKey) (e : CacheEntry) (n : ℕ) (l : Items)
    → 0 < n
    → seek k (take n ((k, e) ∷ l)) ≡ some e
unfolding seek
seek-front k e zero l h = absurd (omega arith)
seek-front k e (suc n) l h = rw (key_eq_refl k) refl

seek-put_other :
    (k q : CacheKey) (e x : CacheEntry) (n : ℕ) (l : Items)
    → key_eq k q ≡ false
    → seek q (take n ((k, e) ∷ without k l)) ≡ some x
    → seek q l ≡ some x
unfolding seek
seek-put_other k q e x n l other h =
    let kept = seek-take q n ((k, e) ∷ without k l) x h in
    ground (arith, kept, other, seek-without_other k q l other)

pub lru_crate-IsLawful : IsLawful lru_crate
unfolding lru_crate seek
lru_crate-IsLawful = record {
  peek-new = λ n k. refl;
  get-found = λ s k. refl;
  get-peek = λ s k q. seek-to_front k q s.items;
  put-same = λ s k e h. seek-front k e s.room (without k s.items) h;
  put-other = λ s k q e x other h. seek-put_other k q e x s.room s.items other h;
  pop-same = λ s k. seek-without_same k s.items;
  pop-other = λ s k q other. seek-without_other k q s.items other;
  cap-new = λ n. refl;
  cap-get = λ s k. refl;
  cap-put = λ s k e. refl;
  cap-pop = λ s k. refl;
}
