-- ===== src/Dns/Cache/Answers.antt =====
-- What `get` of src/dns/cache.rs answers: after a `set`, and in a process that starts with the
-- saved answers of the one before.
use model_lib.Prelude.{
  ℕ, ◌+◌, ◌-◌, ◌≤◌, ◌<◌, min, max, ◌≡◌, inl, inr, refl, ◌∙◌, arith, Bytes, true, false, Bool-cases,
  Option, none, some, Option-cases, ok, err, ◌>>=◌, [], ◌∷◌, ltb, leb, ◌==◌, if◌then◌else◌,
}
use model_lib.Std.Reads.{Read, instant_overflow}
use model_lib.Std.Text.{is_ascii_uppercase, to_ascii_lowercase}
use model_lib.Dns.Keys.{cache_key, encode_dns_key}
use model_lib.Dns.Lru.{CacheEntry, LruCrate, IsLawful}
use model_lib.Dns.Cache.{
  DnsCache, Clock, CacheFile, CacheFileReader, SaveDns, CacheResult, hit, stale, miss, from_secs,
  answer_from, instant_add, ask_persisted, answer_from_row, insert_memory, get, set, with_options,
  load_dns_cache, save_dns_cache_async,
}

-- For how long an answer is kept.
abbrev pub lifetime : ℕ → ℕ → ℕ
lifetime cap ttl =
    if leb ttl cap then (if ttl == 0 then 1 else ttl) else (if cap == 0 then 1 else cap)

clamp-lifetime : (cap ttl : ℕ) → max (min ttl cap) 1 ≡ lifetime cap ttl
clamp-lifetime cap ttl = ground arith

-- An answer is fresh up to `expires`, stale for the window behind it, and then gone.
abbrev pub aged : Option ℕ → ℕ → ℕ → Bytes → CacheResult → CacheResult
aged none expires now resp gone = if ltb now expires then hit resp else gone
aged (some window) expires now resp gone =
    if ltb now expires then hit resp else if ltb now (expires + window) then stale resp else gone

-- The same for an entry in memory, where the end of the window may be beyond the last instant.
abbrev pub remembered : Clock → Option ℕ → ℕ → Bytes → Read CacheResult → Read CacheResult
remembered clock none expires resp gone = if ltb clock.now expires then ok (hit resp) else gone
remembered clock (some window) expires resp gone =
    if ltb clock.now expires
    then ok (hit resp)
    else if ltb clock.last_instant (expires + window)
    then err instant_overflow
    else if ltb clock.now (expires + window)
    then ok (stale resp)
    else gone

-- The answer of a call, without the state.
abbrev pub answer : {S : Type 0} → Read (S × CacheResult) → Read CacheResult
answer (ok (c, r)) = ok r
answer (err e) = err e

module _ (lru : LruCrate) (lawful : IsLawful lru) where
  pub get-absent :
      (c : DnsCache lru) (clock : Clock) (t q : Bytes) (n : ℕ)
      → lru.peek c.inner (cache_key t q n) ≡ none
      → c.persist_reader ≡ none
      → get lru c clock t q n
        ≡ ok (record c { inner = (lru.get c.inner (cache_key t q n)).0 }, miss)
  unfolding get ask_persisted
  get-absent c clock t q n cold unsaved =
      let key = cache_key t q n in
      let absent : (lru.get c.inner key).1 ≡ none = lawful.get-found c.inner key ∙ cold in
      ground (arith, absent, unsaved)

  -- The saved answers do not depend on the memory.
  ask_persisted-inner :
      (c : DnsCache lru) (a : lru.LruCache) (clock : Clock) (t q : Bytes) (n : ℕ)
      → answer (ask_persisted lru (record c { inner = a }) clock t q n)
        ≡ answer (ask_persisted lru c clock t q n)
  unfolding ask_persisted answer_from_row insert_memory instant_add
  ask_persisted-inner c a clock t q n = ground arith

  pub get-peek :
      (c : DnsCache lru) (clock : Clock) (t q : Bytes) (n : ℕ) (e : CacheEntry)
      → lru.peek c.inner (cache_key t q n) ≡ some e
      → answer (get lru c clock t q n)
        ≡ remembered clock c.optimistic_ttl e.expires e.resp
            (answer (ask_persisted lru c clock t q n))
  unfolding get answer_from instant_add
  get-peek c clock t q n e h =
      let key = cache_key t q n in
      let found : (lru.get c.inner key).1 ≡ some e = lawful.get-found c.inner key ∙ h in
      ground (arith, found, ask_persisted-inner c (lru.pop (lru.get c.inner key).0 key) clock t q n)

  -- What is in memory behind a `set`.
  abbrev pub stored_by : DnsCache lru → Clock → Bytes → Bytes → ℕ → Bytes → ℕ → DnsCache lru
  stored_by c clock t q n resp ttl = record c {
    inner =
        lru.put c.inner (cache_key t q n)
          (record { resp = resp; expires = clock.stored_at + from_secs (lifetime c.ttl_cap ttl) });
  }

  pub set-stored_by :
      (c : DnsCache lru) (clock : Clock) (t q : Bytes) (n : ℕ) (resp : Bytes) (ttl : ℕ)
      → ltb clock.last_instant (clock.stored_at + from_secs (lifetime c.ttl_cap ttl)) ≡ false
      → (sent : Option SaveDns) × (set lru c clock t q n resp ttl
          ≡ ok (stored_by c clock t q n resp ttl, sent))
  unfolding set insert_memory instant_add
  set-stored_by c clock t q n resp ttl room =
      let life = clamp-lifetime c.ttl_cap ttl in
      elim (Option-cases c.persist_writer) [
        | inl unsaved ↦ (none, ground (arith, life, room, unsaved))
        | inr (writer, saved) ↦ (
          save_dns_cache_async writer t q n resp (clock.unix_now + lifetime c.ttl_cap ttl),
          ground (arith, life, room, saved),
        )
      ]

  set-overflow :
      (c : DnsCache lru) (clock : Clock) (t q : Bytes) (n : ℕ) (resp : Bytes) (ttl : ℕ)
      → ltb clock.last_instant (clock.stored_at + from_secs (lifetime c.ttl_cap ttl)) ≡ true
      → set lru c clock t q n resp ttl ≡ err instant_overflow
  unfolding set insert_memory instant_add
  set-overflow c clock t q n resp ttl over =
      let life = clamp-lifetime c.ttl_cap ttl in ground (arith, life, over)

  -- A `get` behind a `set` of the same question, in whatever case its name is written, answers by
  -- the age of the entry alone: it is fresh for the ttl, no more than the cap and no less than one
  -- second, then stale for the optimistic window if there is one, and from there on the answer
  -- is that of the saved answers. Instead, `set` panics exactly if the entry would expire beyond the
  -- last instant of its clock, and `get` panics on an expired entry exactly if the window would
  -- end beyond the last instant of its clock, or if the saved answers do. The capacity of the
  -- memory is positive.
  pub get-set :
      (c : DnsCache lru) (before after : Clock) (t q r : Bytes) (n : ℕ) (resp : Bytes) (ttl : ℕ)
      → 0 < lru.cap c.inner
      → to_ascii_lowercase q ≡ to_ascii_lowercase r
      → (set lru c before t q n resp ttl >>= λ stored. answer (get lru stored.0 after t r n)) ≡ (
          let expires = before.stored_at + from_secs (lifetime c.ttl_cap ttl) in
          if ltb before.last_instant expires
          then err instant_overflow
          else remembered after c.optimistic_ttl expires resp
              (answer (ask_persisted lru c after t r n)))
  unfolding cache_key
  get-set c before after t q r n resp ttl pos e =
      let expires = before.stored_at + from_secs (lifetime c.ttl_cap ttl) in
      let entry : CacheEntry = record { resp = resp; expires = expires } in
      let key = cache_key t r n in
      elim (Bool-cases (ltb before.last_instant expires)) [
        | inl over ↦ rw (set-overflow c before t q n resp ttl over, over) refl
        | inr room ↦
            let (sent, done) = set-stored_by c before t q n resp ttl room in
            rw (done, room, e)
              (get-peek (record c { inner = lru.put c.inner key entry }) after t r n entry
                  (lawful.put-same c.inner key entry pos)
                ∙ rw (ask_persisted-inner c (lru.put c.inner key entry) after t r n) refl)
      ]

lower_byte_twice :
    (b : ℕ)
    → (let lower = λ (x : ℕ). if is_ascii_uppercase x then x + 32 else x in
        lower (lower b) ≡ lower b)
lower_byte_twice b = ground arith

to_ascii_lowercase-twice :
    (s : Bytes) → to_ascii_lowercase (to_ascii_lowercase s) ≡ to_ascii_lowercase s
unfolding to_ascii_lowercase
to_ascii_lowercase-twice [] = refl
to_ascii_lowercase-twice (b ∷ s) = rw (lower_byte_twice b, to_ascii_lowercase-twice s)

encode_dns_key-lowercase :
    (t q r : Bytes) (n : ℕ)
    → to_ascii_lowercase q ≡ to_ascii_lowercase r
    → encode_dns_key t (to_ascii_lowercase r) n ≡ encode_dns_key t q n
unfolding encode_dns_key
encode_dns_key-lowercase t q r n e = rw (to_ascii_lowercase-twice r, e) refl

module _ (lru : LruCrate) (lawful : IsLawful lru) where
  get-saved :
      (c : DnsCache lru) (clock : Clock) (t r : Bytes) (n : ℕ) (reader : CacheFileReader)
      (raw : Bytes) (expire_at : ℕ)
      → lru.peek c.inner (cache_key t r n) ≡ none
      → c.persist_reader ≡ some reader
      → load_dns_cache reader t (to_ascii_lowercase r) n ≡ some (raw, expire_at)
      → clock.stored_at + from_secs c.ttl_cap ≤ clock.last_instant
      → answer (get lru c clock t r n)
        ≡ ok (aged c.optimistic_ttl (from_secs expire_at) (from_secs clock.unix_now) raw miss)
  unfolding get ask_persisted answer_from_row insert_memory instant_add
  get-saved c clock t r n reader raw expire_at cold read row room =
      let key = cache_key t r n in
      let absent : (lru.get c.inner key).1 ≡ none = lawful.get-found c.inner key ∙ cold in
      let left = min (expire_at - clock.unix_now) c.ttl_cap in
      let fits : ltb clock.last_instant (clock.stored_at + from_secs left) ≡ false =
        ground (arith, room) in
      ground (arith, absent, read, row, fits)

  set-row :
      (c d : DnsCache lru) (clock : Clock) (t q : Bytes) (n : ℕ) (resp : Bytes) (ttl : ℕ)
      (row : SaveDns)
      → set lru c clock t q n resp ttl ≡ ok (d, some row)
      → row ≡ record {
        key = encode_dns_key t q n;
        expire_at = clock.unix_now + lifetime c.ttl_cap ttl;
        raw = resp;
      }
  unfolding set save_dns_cache_async insert_memory instant_add
  set-row c d clock t q n resp ttl row sent =
      let life = clamp-lifetime c.ttl_cap ttl in ground (arith, life, sent)

  load-set :
      (c d : DnsCache lru) (clock : Clock) (t q r : Bytes) (n : ℕ) (resp : Bytes) (ttl : ℕ)
      (row : SaveDns) (reader : CacheFileReader)
      → set lru c clock t q n resp ttl ≡ ok (d, some row)
      → reader.store_dns ≡ true
      → reader.table row.key ≡ some (row.expire_at, row.raw)
      → to_ascii_lowercase q ≡ to_ascii_lowercase r
      → load_dns_cache reader t (to_ascii_lowercase r) n
        ≡ some (resp, clock.unix_now + lifetime c.ttl_cap ttl)
  unfolding load_dns_cache
  load-set c d clock t q r n resp ttl row reader sent keeps kept e =
      let sent_row = set-row c d clock t q n resp ttl row sent in
      ground (arith, sent_row, encode_dns_key-lowercase t q r n e)

  -- What `set` gave the writer serves a process that starts afresh: if the cache file keeps
  -- answers, and its table has the row that `set` sent, a new cache of any size answers the same question, in
  -- whatever case, by the age of the row in whole seconds since 1970. The new process is not
  -- within `ttl_cap` seconds of the last instant that its clock has.
  pub get-restarted :
      (c d : DnsCache lru) (before after : Clock) (t q r : Bytes) (n : ℕ) (resp : Bytes) (ttl : ℕ)
      (row : SaveDns) (reader : CacheFileReader) (writer : Option CacheFile) (capacity ttl_cap : ℕ)
      (optimistic_ttl : Option ℕ)
      → set lru c before t q n resp ttl ≡ ok (d, some row)
      → reader.store_dns ≡ true
      → reader.table row.key ≡ some (row.expire_at, row.raw)
      → to_ascii_lowercase q ≡ to_ascii_lowercase r
      → after.stored_at + from_secs ttl_cap ≤ after.last_instant
      → answer (
          get lru
            (with_options lru capacity ttl_cap optimistic_ttl (some reader) writer)
            after
            t
            r
            n)
        ≡ ok (
            aged optimistic_ttl
              (from_secs (before.unix_now + lifetime c.ttl_cap ttl))
              (from_secs after.unix_now)
              resp
              miss)
  unfolding with_options
  get-restarted c d before after t q r n resp ttl row reader writer capacity ttl_cap optimistic_ttl
        sent keeps kept e room =
      get-saved (with_options lru capacity ttl_cap optimistic_ttl (some reader) writer) after t r n
        reader resp (before.unix_now + lifetime c.ttl_cap ttl)
        (lawful.peek-new (max capacity 1) (cache_key t r n)) refl
        (load-set c d before t q r n resp ttl row reader sent keeps kept e) room
