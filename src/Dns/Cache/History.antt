-- ===== src/Dns/Cache/History.antt =====
-- Runs of `get` and `set` of src/dns/cache.rs on a cache in memory, against a map that forgets
-- nothing.
use model_lib.Prelude.{
  ℕ, ◌+◌, ◌≤◌, ◌<◌, max, ◌≡◌, ◌⊎◌, inl, inr, refl, sym, ◌∙◌, subst, arith, Bytes, false, Bool-cases,
  Option, none, some, Option-cases, ok, ◌>>=◌, List, [], ◌∷◌, All, ltb, ltb→lt,
}
use model_lib.Dns.Keys.{CacheKey, cache_key, key_eq, key_eq_iff}
use model_lib.Dns.Lru.{CacheEntry, LruCrate, IsLawful}
use model_lib.Dns.Cache.{
  DnsCache, Clock, CacheResult, miss, from_secs, ask_persisted, answer_from, instant_add, get,
  with_options,
}
use model_lib.Dns.Cache.Answers.{lifetime, aged, get-absent, set-stored_by, stored_by}
use model_lib.Dns.Cache.Calls.{Call, gets, sets, latest, run, Tells, span, Fits, latest-end}

module _ (lru : LruCrate) where
  -- The memory holds nothing but what was set last.
  record Follows (ttl_cap : ℕ) (window : Option ℕ) (h : List Call) (c : DnsCache lru) : Type 0 where
    held :
        (k : CacheKey) (e : CacheEntry) → lru.peek c.inner k ≡ some e → latest ttl_cap h k ≡ some e
    cap : c.ttl_cap ≡ ttl_cap
    window_kept : c.optimistic_ttl ≡ window
    unsaved : c.persist_reader ≡ none

  module _ (lawful : IsLawful lru) where
    pop-peek :
        (s : lru.LruCache) (k q : CacheKey) (e : CacheEntry)
        → lru.peek (lru.pop (lru.get s k).0 k) q ≡ some e
        → lru.peek s q ≡ some e
    pop-peek s k q e h = elim (Bool-cases (key_eq k q)) [
      | inl same ↦
          let eq : k ≡ q = (key_eq_iff k q).0 same in
          absurd (cc (eq, h, lawful.pop-same (lru.get s k).0 k))
      | inr other ↦
          sym (lawful.get-peek s k q) ∙ (sym (lawful.pop-other (lru.get s k).0 k q other) ∙ h)
    ]

    -- What `get` does to an entry in memory, where no instant is too late.
    get-some :
        (c : DnsCache lru) (clock : Clock) (t q : Bytes) (n : ℕ) (e : CacheEntry)
        → c.persist_reader ≡ none
        → lru.peek c.inner (cache_key t q n) ≡ some e
        → e.expires + span c.optimistic_ttl ≤ clock.last_instant
        → (let key = cache_key t q n in
            let inner = (lru.get c.inner key).0 in
            let result = aged c.optimistic_ttl e.expires clock.now e.resp miss in
            (get lru c clock t q n ≡ ok (record c { inner = inner }, result))
            ⊎ (get lru c clock t q n ≡ ok (record c { inner = lru.pop inner key }, result)))
    unfolding get ask_persisted answer_from instant_add
    get-some c clock t q n e unsaved hot room =
        let key = cache_key t q n in
        let found : (lru.get c.inner key).1 ≡ some e = lawful.get-found c.inner key ∙ hot in
        elim (Bool-cases (ltb clock.now e.expires)) [
          | inl early ↦ inl (ground (arith, found, early))
          | inr late ↦ elim (Option-cases c.optimistic_ttl) [
            | inl off ↦ inr (ground (arith, found, late, off, unsaved))
            | inr (w, on) ↦
                let fits : ltb clock.last_instant (e.expires + w) ≡ false =
                  ground (arith, room, on) in
                elim (Bool-cases (ltb clock.now (e.expires + w))) [
                  | inl soon ↦ inl (ground (arith, found, late, on, fits, soon))
                  | inr over ↦ inr (ground (arith, found, late, on, fits, over, unsaved))
                ]
          ]
        ]

    -- A `get` whose memory follows the calls before it answers, and goes on following.
    Follows-inner :
        {ttl_cap : ℕ} {window : Option ℕ} {h : List Call} (c : DnsCache lru) (clock : Clock)
        (t q : Bytes) (n : ℕ) (inner : lru.LruCache)
        → Follows ttl_cap window h c
        → ((k : CacheKey) (e : CacheEntry)
            → lru.peek inner k ≡ some e
            → lru.peek c.inner k ≡ some e)
        → Follows ttl_cap window (gets clock t q n ∷ h) (record c { inner = inner })
    unfolding latest
    Follows-inner c clock t q n inner f less = record {
      held = λ k e p. f.held k e (less k e p);
      cap = f.cap;
      window_kept = f.window_kept;
      unsaved = f.unsaved;
    }

    aged-Tells :
        (window : Option ℕ) (now : ℕ) (last : Option CacheEntry) (e : CacheEntry)
        → last ≡ some e
        → Tells lru window now last (aged window e.expires now e.resp miss)
    aged-Tells none now last e h = elim (Bool-cases (ltb now e.expires)) [
      | inl early ↦ rw early (e, h, refl, ltb→lt _ _ early)
      | inr late ↦ rw late tt
    ]
    aged-Tells (some w) now last e h = elim (Bool-cases (ltb now e.expires)) [
      | inl early ↦ rw early (e, h, refl, ltb→lt _ _ early)
      | inr late ↦ elim (Bool-cases (ltb now (e.expires + w))) [
        | inl soon ↦ rw (late, soon) (e, w, h, refl, refl, ground (arith, late), ltb→lt _ _ soon)
        | inr over ↦ rw (late, over) tt
      ]
    ]

    get-Follows :
        {ttl_cap : ℕ} {window : Option ℕ} {h : List Call} (end : ℕ) (c : DnsCache lru)
        (clock : Clock) (t q : Bytes) (n : ℕ)
        → All (Fits ttl_cap window end) h
        → end + span window ≤ clock.last_instant
        → Follows ttl_cap window h c
        → (d : DnsCache lru) × (answer : CacheResult) × (get lru c clock t q n ≡ ok (d, answer))
          × Follows ttl_cap window (gets clock t q n ∷ h) d
          × (lru.cap d.inner ≡ lru.cap c.inner)
          × Tells lru window clock.now (latest ttl_cap h (cache_key t q n)) answer
    get-Follows {ttl_cap} {window} {h} end c clock t q n fits room f =
        let key = cache_key t q n in
        let inner = (lru.get c.inner key).0 in
        let same = lawful.cap-get c.inner key in
        let touched =
          Follows-inner c clock t q n inner f λ k e p. sym (lawful.get-peek c.inner key k) ∙ p in
        let popped =
          Follows-inner c clock t q n (lru.pop inner key) f λ k e p. pop-peek c.inner key k e p in
        elim (Option-cases (lru.peek c.inner key)) [
          | inl cold ↦ (
            record c { inner = inner },
            miss,
            get-absent lru lawful c clock t q n cold f.unsaved,
            touched,
            same,
            tt,
          )
          | inr (e, hot) ↦
              let last = f.held key e hot in
              let result = aged c.optimistic_ttl e.expires clock.now e.resp miss in
              let tells : Tells lru window clock.now (latest ttl_cap h key) result =
                subst
                  (λ w.
                    Tells lru window clock.now (latest ttl_cap h key)
                      (aged w e.expires clock.now e.resp miss))
                  (sym f.window_kept) (aged-Tells window clock.now (latest ttl_cap h key) e last) in
              let late = latest-end ttl_cap window end h key e fits last in
              let in_time : e.expires + span c.optimistic_ttl ≤ clock.last_instant =
                subst (λ w. e.expires + span w ≤ clock.last_instant) (sym f.window_kept)
                  (omega (arith, late, room)) in
              elim (get-some c clock t q n e f.unsaved hot in_time) [
                | inl done ↦ (record c { inner = inner }, result, done, touched, same, tells)
                | inr done ↦ (
                  record c { inner = lru.pop inner key },
                  result,
                  done,
                  popped,
                  lawful.cap-pop inner key ∙ same,
                  tells,
                )
              ]
        ]

    set-Follows :
        {ttl_cap : ℕ} {window : Option ℕ} {h : List Call} (c : DnsCache lru) (clock : Clock)
        (t q : Bytes) (n : ℕ) (resp : Bytes) (ttl : ℕ)
        → 0 < lru.cap c.inner
        → Follows ttl_cap window h c
        → Follows ttl_cap window
            (sets clock t q n resp ttl ∷ h)
            (stored_by lru lawful c clock t q n resp ttl)
    unfolding latest
    set-Follows {ttl_cap} {window} {h} c clock t q n resp ttl pos f = record {
      held = set_held;
      cap = f.cap;
      window_kept = f.window_kept;
      unsaved = f.unsaved;
    }
      where
        key : CacheKey
        key = cache_key t q n

        entry : CacheEntry
        entry = record {
          resp = resp;
          expires = clock.stored_at + from_secs (lifetime c.ttl_cap ttl);
        }

        set_held :
            (k : CacheKey) (e : CacheEntry)
            → lru.peek (lru.put c.inner key entry) k ≡ some e
            → latest ttl_cap (sets clock t q n resp ttl ∷ h) k ≡ some e
        set_held k e p = elim (Bool-cases (key_eq key k)) [
          | inl same ↦
              let eq : key ≡ k = (key_eq_iff key k).0 same in
              ground (arith, eq, same, f.cap, lawful.put-same c.inner key entry pos)
          | inr other ↦
              ground (arith, other, f.held k e (lawful.put-other c.inner key k entry e other p))
        ]

    run-Follows :
        (capacity ttl_cap : ℕ) (window : Option ℕ) (end : ℕ) (h : List Call)
        → All (Fits ttl_cap window end) h
        → (c : DnsCache lru) × (run lru h (with_options lru capacity ttl_cap window none none)
            ≡ ok c)
          × Follows ttl_cap window h c
          × (lru.cap c.inner ≡ max capacity 1)
    unfolding run with_options latest
    run-Follows capacity ttl_cap window end [] fits = (
      with_options lru capacity ttl_cap window none none,
      refl,
      record {
        held = λ k e p. absurd (cc (p, lawful.peek-new (max capacity 1) k));
        cap = refl;
        window_kept = refl;
        unsaved = refl;
      },
      lawful.cap-new (max capacity 1),
    )
    run-Follows capacity ttl_cap window end (gets clock t q n ∷ h) fits =
        let (c, ran, f, size) = run-Follows capacity ttl_cap window end h fits.1 in
        let (d, answer, done, g, same, _) = get-Follows end c clock t q n fits.1 fits.0 f in
        (d, rw (ran, done) refl, g, same ∙ size)
    run-Follows capacity ttl_cap window end (sets clock t q n resp ttl ∷ h) fits =
        let (c, ran, f, size) = run-Follows capacity ttl_cap window end h fits.1 in
        let stored = clock.stored_at + from_secs (lifetime c.ttl_cap ttl) in
        let in_time : stored ≤ end =
          subst (λ k. clock.stored_at + from_secs (lifetime k ttl) ≤ end) (sym f.cap) fits.0.0 in
        let room : ltb clock.last_instant stored ≡ false = ground (arith, in_time, fits.0.1) in
        let (sent, done) = set-stored_by lru lawful c clock t q n resp ttl room in
        (
          stored_by lru lawful c clock t q n resp ttl,
          rw (ran, done) refl,
          set-Follows c clock t q n resp ttl (omega (arith, size)) f,
          lawful.cap-put c.inner (cache_key t q n) _ ∙ size,
        )

    -- After any calls of `get` and `set` on a new cache in memory, of whatever capacity, a `get`
    -- returns, and its answer is what was set last for the same upstream, name (up to ASCII case) and
    -- type: a hit before that expires, and a stale answer behind it and within the optimistic window.
    -- Evictions only ever cause misses. The answers expire by `end`, and no clock's last instant
    -- is before the end of the window behind it.
    pub run-Tells :
        (capacity ttl_cap : ℕ) (window : Option ℕ) (end : ℕ) (h : List Call) (clock : Clock)
        (t q : Bytes) (n : ℕ)
        → All (Fits ttl_cap window end) h
        → end + span window ≤ clock.last_instant
        → (p : DnsCache lru × CacheResult) × ((run lru h
                (with_options lru capacity ttl_cap window none none)
              >>= λ c. get lru c clock t q n)
            ≡ ok p)
          × Tells lru window clock.now (latest ttl_cap h (cache_key t q n)) p.1
    run-Tells capacity ttl_cap window end h clock t q n fits room =
        let (c, ran, f, _) = run-Follows capacity ttl_cap window end h fits in
        let (d, answer, done, _, _, tells) = get-Follows end c clock t q n fits room f in
        ((d, answer), rw ran done, tells)
