-- ===== src/Dns/Cache.antt =====
-- `DnsCache` of src/dns/cache.rs, behind the locks, and the handles of
-- src/experimental/cache_file.rs on the table of saved answers. A method takes the clock's
-- readings and returns the new state.
pub mod Answers
pub mod Calls
pub mod History
pub mod Inflight
use model_lib.Prelude.{
  ℕ, ◌+◌, ◌-◌, ◌*◌, min, max, Bytes, Bool, true, false, Option, none, some, ok, err, ◌>>=◌, List,
  [], length, ltb, ◌==◌, if◌then◌else◌,
}
use model_lib.Std.Reads.{Read, instant_overflow}
use model_lib.Std.Text.{to_ascii_lowercase}
use model_lib.Dns.Keys.{CacheKey, cache_key, encode_dns_key}
use model_lib.Dns.Lru.{CacheEntry, LruCrate}

-- `Duration::from_secs`, in nanoseconds
abbrev pub from_secs : ℕ → ℕ
from_secs n = n * 1000000000

-- What one call reads from the clocks: `Instant::now` in `get`, `Instant::now` in
-- `insert_memory`, and `unix_now` in seconds; and the last instant that the platform represents.
pub record Clock : Type 0 where
  pub now : ℕ
  pub stored_at : ℕ
  pub unix_now : ℕ
  pub last_instant : ℕ

-- `Instant + Duration`, which panics beyond the last instant.
unfoldable pub instant_add : Clock → ℕ → ℕ → Read ℕ
instant_add clock t d = if ltb clock.last_instant (t + d) then err instant_overflow else ok (t + d)

-- The reader's table, of the `redb` crate, is what one key finds: when it expires, and the answer.
pub record CacheFileReader : Type 0 where
  pub store_dns : Bool
  pub table : Bytes → Option (ℕ × Bytes)

pub record CacheFile : Type 0 where
  pub store_dns : Bool

-- `WriteOp::SaveDns`, which the writer's task receives
pub record SaveDns : Type 0 where
  pub key : Bytes
  pub expire_at : ℕ
  pub raw : Bytes

unfoldable pub load_dns_cache : CacheFileReader → Bytes → Bytes → ℕ → Option (Bytes × ℕ)
load_dns_cache reader transport qname qtype =
    if reader.store_dns
    then elim (reader.table (encode_dns_key transport qname qtype)) [
      | none ↦ none
      | some row ↦ some (row.1, row.0)
    ]
    else none

unfoldable pub save_dns_cache_async : CacheFile → Bytes → Bytes → ℕ → Bytes → ℕ → Option SaveDns
save_dns_cache_async writer transport qname qtype raw expire_at =
    if writer.store_dns
    then some
        (record { key = encode_dns_key transport qname qtype; expire_at = expire_at; raw = raw })
    else none

pub data CacheResult : Type 0 where
  hit stale : Bytes → CacheResult
  miss : CacheResult

-- The senders of the table of queries in flight are numbered as they are made.
pub record DnsCache (lru : LruCrate) : Type 0 where
  pub inner : lru.LruCache
  pub ttl_cap : ℕ
  pub optimistic_ttl : Option ℕ
  pub persist_reader : Option CacheFileReader
  pub persist_writer : Option CacheFile
  pub inflight : List (CacheKey × ℕ)
  pub next_sender : ℕ

-- What an entry in memory is good for.
unfoldable pub answer_from : Clock → Option ℕ → CacheEntry → Read (Option CacheResult)
answer_from clock optimistic entry = elim (ltb clock.now entry.expires) [
  | true ↦ ok (some (hit entry.resp))
  | false ↦ elim optimistic [
    | none ↦ ok none
    | some window ↦ do
      until ← instant_add clock entry.expires window
      ok (if ltb clock.now until then some (stale entry.resp) else none)
  ]
]

module _ (lru : LruCrate) where
  unfoldable pub with_options :
      ℕ → ℕ → Option ℕ → Option CacheFileReader → Option CacheFile → DnsCache lru
  with_options capacity ttl_cap optimistic_ttl reader writer = record {
    inner = lru.new (max capacity 1);
    ttl_cap = ttl_cap;
    optimistic_ttl = optimistic_ttl;
    persist_reader = reader;
    persist_writer = writer;
    inflight = [];
    next_sender = 0;
  }

  unfoldable pub new : ℕ → ℕ → DnsCache lru
  new capacity ttl_cap = with_options capacity ttl_cap none none none

  unfoldable pub insert_memory : DnsCache lru → Clock → CacheKey → Bytes → ℕ → Read (DnsCache lru)
  insert_memory c clock key resp ttl_secs = do
    expires ← instant_add clock clock.stored_at (from_secs ttl_secs)
    ok (record c { inner = lru.put c.inner key (record { resp = resp; expires = expires }) })

  -- A row of the saved answers. `as u32` keeps the seconds left, which `ttl_cap`, a `u32`, bounds.
  unfoldable pub answer_from_row :
      DnsCache lru → Clock → CacheKey → Bytes × ℕ → Read (DnsCache lru × CacheResult)
  answer_from_row c clock key (raw, expire_at) = elim (ltb clock.unix_now expire_at) [
    | true ↦ do
      stored ← insert_memory c clock key raw (min (expire_at - clock.unix_now) c.ttl_cap)
      ok (stored, hit raw)
    | false ↦ elim c.optimistic_ttl [
      | none ↦ ok (c, miss)
      | some window ↦
          if ltb (from_secs (clock.unix_now - expire_at)) window
          then ok (c, stale raw)
          else ok (c, miss)
    ]
  ]

  unfoldable pub ask_persisted :
      DnsCache lru → Clock → Bytes → Bytes → ℕ → Read (DnsCache lru × CacheResult)
  ask_persisted c clock transport qname qtype = elim c.persist_reader [
    | none ↦ ok (c, miss)
    | some reader ↦ elim (load_dns_cache reader transport (to_ascii_lowercase qname) qtype) [
      | none ↦ ok (c, miss)
      | some row ↦ answer_from_row c clock (cache_key transport qname qtype) row
    ]
  ]

  -- A call that panics has no result.
  unfoldable pub get : DnsCache lru → Clock → Bytes → Bytes → ℕ → Read (DnsCache lru × CacheResult)
  get c clock transport qname qtype =
      let key = cache_key transport qname qtype in
      let (inner, found) = lru.get c.inner key in
      let touched : DnsCache lru = record c { inner = inner } in
      let popped : DnsCache lru = record c { inner = lru.pop inner key } in
      elim found [
        | none ↦ ask_persisted touched clock transport qname qtype
        | some entry ↦ do
          found ← answer_from clock c.optimistic_ttl entry
          elim found [
            | some answer ↦ ok (touched, answer)
            | none ↦ ask_persisted popped clock transport qname qtype
          ]
      ]

  unfoldable pub set :
      DnsCache lru → Clock → Bytes → Bytes → ℕ → Bytes → ℕ → Read (DnsCache lru × Option SaveDns)
  set c clock transport qname qtype resp ttl = do
    stored ←
        insert_memory c clock (cache_key transport qname qtype) resp (max (min ttl c.ttl_cap) 1)
    elim c.persist_writer [
      | none ↦ ok (stored, none)
      | some writer ↦ ok (
        stored,
        save_dns_cache_async writer transport qname qtype resp
            (clock.unix_now + max (min ttl c.ttl_cap) 1),
      )
    ]

  unfoldable pub inflight_len : DnsCache lru → ℕ
  inflight_len c = length c.inflight

  unfoldable pub len : DnsCache lru → ℕ
  len c = lru.len c.inner

  unfoldable pub is_empty : DnsCache lru → Bool
  is_empty c = len c == 0
