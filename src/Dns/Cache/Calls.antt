-- ===== src/Dns/Cache/Calls.antt =====
-- Sequences of `get` and `set` of src/dns/cache.rs, and what was set last.
use model_lib.Prelude.{
  ℕ, ◌+◌, ◌≤◌, ◌<◌, ◌≡◌, inl, inr, arith, Bytes, Bool-cases, Option, none, some, ok, ◌>>=◌, List,
  [], ◌∷◌, All, if◌then◌else◌,
}
use model_lib.Std.Reads.{Read}
use model_lib.Dns.Keys.{CacheKey, cache_key, key_eq}
use model_lib.Dns.Lru.{CacheEntry, LruCrate}
use model_lib.Dns.Cache.{DnsCache, Clock, CacheResult, hit, stale, miss, from_secs, get, set}
use model_lib.Dns.Cache.Answers.{lifetime}

pub data Call : Type 0 where
  gets : Clock → Bytes → Bytes → ℕ → Call
  sets : Clock → Bytes → Bytes → ℕ → Bytes → ℕ → Call

-- What was set last under a key, the latest call first: the answer, and when it expires.
unfoldable pub latest : ℕ → List Call → CacheKey → Option CacheEntry
latest ttl_cap [] key = none
latest ttl_cap (gets clock t q n ∷ earlier) key = latest ttl_cap earlier key
latest ttl_cap (sets clock t q n resp ttl ∷ earlier) key =
    let before = latest ttl_cap earlier key in
    if key_eq (cache_key t q n) key
    then some (record { resp = resp; expires = clock.stored_at + from_secs (lifetime ttl_cap ttl) })
    else before

abbrev pub span : Option ℕ → ℕ
span none = 0
span (some window) = window

-- The answers expire by `end` at the latest, and the clocks go on for the window behind it.
abbrev pub Fits : ℕ → Option ℕ → ℕ → Call → Type 0
Fits ttl_cap window end (gets clock t q n) = end + span window ≤ clock.last_instant
Fits ttl_cap window end (sets clock t q n resp ttl) =
    (clock.stored_at + from_secs (lifetime ttl_cap ttl) ≤ end)
    × (end + span window ≤ clock.last_instant)

pub latest-end :
    (ttl_cap : ℕ) (window : Option ℕ) (end : ℕ) (h : List Call) (key : CacheKey) (e : CacheEntry)
    → All (Fits ttl_cap window end) h
    → latest ttl_cap h key ≡ some e
    → e.expires ≤ end
unfolding latest
latest-end ttl_cap window end [] key e f l = absurd (cc)
latest-end ttl_cap window end (gets clock t q n ∷ h) key e f l =
    latest-end ttl_cap window end h key e f.1 l
latest-end ttl_cap window end (sets clock t q n resp ttl ∷ h) key e f l =
    elim (Bool-cases (key_eq (cache_key t q n) key)) [
      | inl same ↦ ground (arith, same, l, f.0.0)
      | inr other ↦ latest-end ttl_cap window end h key e f.1 (ground (arith, other, l))
    ]

module _ (lru : LruCrate) where
  -- The latest call comes first.
  unfoldable pub run : List Call → DnsCache lru → Read (DnsCache lru)
  run [] c = ok c
  run (gets clock t q n ∷ earlier) c = do
    before ← run earlier c
    (after, answered) ← get lru before clock t q n
    ok after
  run (sets clock t q n resp ttl ∷ earlier) c = do
    before ← run earlier c
    (after, sent) ← set lru before clock t q n resp ttl
    ok after

  -- What an answer says of what was set last.
  abbrev pub Tells : Option ℕ → ℕ → Option CacheEntry → CacheResult → Type 0
  Tells window now last (hit resp) =
      (e : CacheEntry) × (last ≡ some e) × (e.resp ≡ resp) × (now < e.expires)
  Tells window now last (stale resp) =
      (e : CacheEntry) × (w : ℕ) × (last ≡ some e)
      × (window ≡ some w)
      × (e.resp ≡ resp)
      × (e.expires ≤ now)
      × (now < e.expires + w)
  Tells window now last miss = Unit
