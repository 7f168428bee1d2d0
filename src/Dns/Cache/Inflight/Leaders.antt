-- ===== src/Dns/Cache/Inflight/Leaders.antt =====
-- One leader for each query in flight of src/dns/cache.rs, and its waiters.
use model_lib.Prelude.{
  ℕ, ◌-◌, min, max, ◌≡◌, ◌⊎◌, inl, inr, refl, sym, ap, ◌∙◌, arith, Bytes, false, Bool-cases, Option,
  none, some, Option-cases, ok, ◌>>=◌, >>=-eq-ok, ok_inj, [], ◌∷◌, ltb,
}
use model_lib.Dns.Keys.{CacheKey, cache_key, key_eq, key_eq_iff, key_eq_refl}
use model_lib.Std.Reads.{Read}
use model_lib.Std.Text.{to_ascii_lowercase}
use model_lib.Dns.Lru.{LruCrate}
use model_lib.Dns.Cache.{
  DnsCache, Clock, CacheResult, SaveDns, hit, get, set, ask_persisted, answer_from, answer_from_row,
  insert_memory, instant_add, load_dns_cache, from_secs,
}
use model_lib.Dns.Cache.Inflight.{
  leader, waiter, Inflight, find, remove, broadcast, try_lead_inflight, complete_inflight, Runs,
}

find-remove_same : (k : CacheKey) (l : Inflight) → find k (remove k l) ≡ none
unfolding find remove
find-remove_same k [] = refl
find-remove_same k ((j, s) ∷ l) = ground (arith, find-remove_same k l)

find-remove_other :
    (k q : CacheKey) (l : Inflight) → key_eq k q ≡ false → find q (remove k l) ≡ find q l
unfolding find remove
find-remove_other k q [] h = refl
find-remove_other k q ((j, s) ∷ l) h = elim (Bool-cases (key_eq j k)) [
  | inl same ↦
      let eq : j ≡ k = (key_eq_iff j k).0 same in
      ground (arith, same, eq, h, find-remove_other k q l h)
  | inr other ↦ ground (arith, other, find-remove_other k q l h)
]

module _ (lru : LruCrate) where
  insert_memory-inflight :
      (c d : DnsCache lru) (clock : Clock) (key : CacheKey) (resp : Bytes) (ttl : ℕ)
      → insert_memory lru c clock key resp ttl ≡ ok d
      → d.inflight ≡ c.inflight
  unfolding insert_memory
  insert_memory-inflight c d clock key resp ttl h =
      let (_, _, e) = >>=-eq-ok (instant_add clock clock.stored_at (from_secs ttl)) _ h in
      ap (λ x. x.inflight) (sym (ok_inj _ e))

  answer_from_row-inflight :
      (c d : DnsCache lru) (clock : Clock) (key : CacheKey) (row : Bytes × ℕ) (answer : CacheResult)
      → answer_from_row lru c clock key row ≡ ok (d, answer)
      → d.inflight ≡ c.inflight
  unfolding answer_from_row
  answer_from_row-inflight c d clock key (raw, expire_at) answer h =
      elim (Bool-cases (ltb clock.unix_now expire_at)) [
        | inl fresh ↦
            let left = min (expire_at - clock.unix_now) c.ttl_cap in
            let give : DnsCache lru → Read (DnsCache lru × CacheResult) = λ s. ok (s, hit raw) in
            let h1 : (insert_memory lru c clock key raw left >>= give) ≡ ok (d, answer) =
              ground (arith, fresh, h) in
            let (s, stored, e) = >>=-eq-ok (insert_memory lru c clock key raw left) give h1 in
            ap (λ x. x.0.inflight) (sym (ok_inj _ e))
            ∙ insert_memory-inflight c s clock key raw left stored
        | inr late ↦ ground (arith, late, h)
      ]

  ask_persisted-inflight :
      (c d : DnsCache lru) (clock : Clock) (t q : Bytes) (n : ℕ) (answer : CacheResult)
      → ask_persisted lru c clock t q n ≡ ok (d, answer)
      → d.inflight ≡ c.inflight
  unfolding ask_persisted
  ask_persisted-inflight c d clock t q n answer h = elim (Option-cases c.persist_reader) [
    | inl unsaved ↦ ground (arith, unsaved, h)
    | inr (reader, read) ↦ elim (Option-cases (load_dns_cache reader t (to_ascii_lowercase q) n)) [
      | inl unknown ↦ ground (arith, read, unknown, h)
      | inr (row, known) ↦
          answer_from_row-inflight c d clock (cache_key t q n) row answer
            (ground (arith, read, known, h))
    ]
  ]

  get-inflight :
      (c d : DnsCache lru) (clock : Clock) (t q : Bytes) (n : ℕ) (answer : CacheResult)
      → get lru c clock t q n ≡ ok (d, answer)
      → d.inflight ≡ c.inflight
  unfolding get
  get-inflight c d clock t q n answer h =
      let key = cache_key t q n in
      let touched : DnsCache lru = record c { inner = (lru.get c.inner key).0 } in
      let popped : DnsCache lru = record c { inner = lru.pop (lru.get c.inner key).0 key } in
      elim (Option-cases (lru.get c.inner key).1) [
        | inl cold ↦ ask_persisted-inflight touched d clock t q n answer (ground (arith, cold, h))
        | inr (entry, hot) ↦
            let found = answer_from clock c.optimistic_ttl entry in
            let rest : Option CacheResult → Read (DnsCache lru × CacheResult) = λ a. elim a [
              | some answer ↦ ok (touched, answer)
              | none ↦ ask_persisted lru popped clock t q n
            ] in
            let h1 : (found >>= rest) ≡ ok (d, answer) = ground (arith, hot, h) in
            let (a, _, e) = >>=-eq-ok found rest h1 in
            elim (Option-cases a) [
              | inl gone ↦
                  ask_persisted-inflight popped d clock t q n answer (ground (arith, gone, e))
              | inr (b, kept) ↦ ground (arith, kept, e)
            ]
      ]

  set-inflight :
      (c d : DnsCache lru) (clock : Clock) (t q : Bytes) (n : ℕ) (resp : Bytes) (ttl : ℕ)
      (sent : Option SaveDns)
      → set lru c clock t q n resp ttl ≡ ok (d, sent)
      → d.inflight ≡ c.inflight
  unfolding set
  set-inflight c d clock t q n resp ttl sent h =
      let life = max (min ttl c.ttl_cap) 1 in
      let (s, stored, e) = >>=-eq-ok (insert_memory lru c clock (cache_key t q n) resp life) _ h in
      let same : d ≡ s = ground (arith, e) in
      ap (λ x. x.inflight) same
      ∙ insert_memory-inflight c s clock (cache_key t q n) resp life stored

  try_lead-find :
      (c : DnsCache lru) (t q : Bytes) (n : ℕ) (key : CacheKey) (sender : ℕ)
      → find key c.inflight ≡ some sender
      → find key (try_lead_inflight lru c t q n).0.inflight ≡ some sender
  unfolding try_lead_inflight find
  try_lead-find c t q n key sender h = elim (Bool-cases (key_eq (cache_key t q n) key)) [
    | inl same ↦
        let eq : cache_key t q n ≡ key = (key_eq_iff (cache_key t q n) key).0 same in
        ground (arith, eq, h)
    | inr other ↦ ground (arith, other, h)
  ]

  Runs-find :
      (key : CacheKey) (c d : DnsCache lru) (sender : ℕ)
      → Runs lru key c d
      → find key c.inflight ≡ some sender
      → find key d.inflight ≡ some sender
  unfolding complete_inflight
  Runs-find key c d sender (Runs.done _) h = h
  Runs-find key c d sender (Runs.leads _ _ t q n r) h =
      Runs-find key (try_lead_inflight lru c t q n).0 d sender r
        (try_lead-find c t q n key sender h)
  Runs-find key c d sender (Runs.completes _ _ t q n resp other r) h =
      Runs-find key (complete_inflight lru c t q n resp).0 d sender r
        (find-remove_other (cache_key t q n) key c.inflight other ∙ h)
  Runs-find key c d sender (Runs.gets _ _ e clock t q n answer g r) h =
      Runs-find key e d sender r (ap (find key) (get-inflight c e clock t q n answer g) ∙ h)
  Runs-find key c d sender (Runs.sets _ _ e clock t q n resp ttl sent g r) h =
      Runs-find key e d sender r (ap (find key) (set-inflight c e clock t q n resp ttl sent g) ∙ h)

  -- Who asks to lead leads or waits, and its query is then in flight.
  lead_cases :
      (c : DnsCache lru) (t q : Bytes) (n : ℕ)
      → (let (d, r) = try_lead_inflight lru c t q n in
          (sender : ℕ) × (find (cache_key t q n) d.inflight ≡ some sender)
          × ((r ≡ leader) ⊎ (r ≡ waiter sender)))
  unfolding try_lead_inflight find
  lead_cases c t q n =
      let key = cache_key t q n in
      elim (Option-cases (find key c.inflight)) [
        | inl free ↦
            (c.next_sender, ground (arith, free, key_eq_refl key), inl (ground (arith, free)))
        | inr (sender, taken) ↦ (sender, ground (arith, taken), inr (ground (arith, taken)))
      ]

  lead-found :
      (c : DnsCache lru) (t q : Bytes) (n : ℕ) (sender : ℕ)
      → find (cache_key t q n) c.inflight ≡ some sender
      → (try_lead_inflight lru c t q n).1 ≡ waiter sender
  unfolding try_lead_inflight
  lead-found c t q n sender h = ground (arith, h)

  complete-found :
      (c : DnsCache lru) (t q : Bytes) (n : ℕ) (resp : Option Bytes) (sender : ℕ)
      → find (cache_key t q n) c.inflight ≡ some sender
      → ((complete_inflight lru c t q n resp).1 ≡ broadcast (some sender) resp)
        × ((try_lead_inflight lru (complete_inflight lru c t q n resp).0 t q n).1 ≡ leader)
  unfolding complete_inflight try_lead_inflight
  complete-found c t q n resp sender h =
      (rw h refl, ground (arith, find-remove_same (cache_key t q n) c.inflight))

  -- A query has one leader at a time. Once a task has asked to lead, and for as long as no task
  -- completes that query, whatever other calls return, every other task that asks becomes a waiter of one
  -- and the same channel. The call that completes the query speaks to that channel, and the next
  -- task that asks leads again.
  pub one_leader :
      (c d : DnsCache lru) (t q : Bytes) (n : ℕ)
      → Runs lru (cache_key t q n) (try_lead_inflight lru c t q n).0 d
      → (sender : ℕ) × (((try_lead_inflight lru c t q n).1 ≡ leader)
          ⊎ ((try_lead_inflight lru c t q n).1 ≡ waiter sender))
        × ((try_lead_inflight lru d t q n).1 ≡ waiter sender)
        × ((resp : Option Bytes)
            → ((complete_inflight lru d t q n resp).1 ≡ broadcast (some sender) resp)
              × ((try_lead_inflight lru (complete_inflight lru d t q n resp).0 t q n).1 ≡ leader))
  one_leader c d t q n r =
      let (sender, there, role) = lead_cases c t q n in
      let still = Runs-find (cache_key t q n) (try_lead_inflight lru c t q n).0 d sender r there in
      (
        sender,
        role,
        lead-found d t q n sender still,
        λ resp. complete-found d t q n resp sender still,
      )
