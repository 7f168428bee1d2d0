-- ===== src/Dns/Cache/Inflight.antt =====
-- The table of queries in flight of src/dns/cache.rs: `try_lead_inflight` and `complete_inflight`.
-- The `HashMap` is an association list, and a `broadcast` channel is its sender's number.
pub mod Leaders
use model_lib.Prelude.{
  ok, ◌≡◌, ℕ, ◌+◌, ◌≡◌, Bytes, false, Option, none, some, List, [], ◌∷◌, if◌then◌else◌,
}
use model_lib.Dns.Keys.{CacheKey, cache_key, key_eq}
use model_lib.Dns.Lru.{LruCrate}
use model_lib.Dns.Cache.{DnsCache, Clock, CacheResult, SaveDns, get, set}

-- A waiter holds a receiver of the channel.
pub data InflightResult : Type 0 where
  leader : InflightResult
  waiter : ℕ → InflightResult

-- What the receivers of a channel see: an answer, or that the sender is dropped.
pub data Broadcast : Type 0 where
  nobody : Broadcast
  sent : ℕ → Bytes → Broadcast
  dropped : ℕ → Broadcast

abbrev pub Inflight : Type 0
Inflight = List (CacheKey × ℕ)

-- `HashMap::get`
unfoldable pub find : CacheKey → Inflight → Option ℕ
find key [] = none
find key ((k, sender) ∷ rest) =
    let later = find key rest in if key_eq k key then some sender else later

-- `HashMap::remove`
unfoldable pub remove : CacheKey → Inflight → Inflight
remove key [] = []
remove key ((k, sender) ∷ rest) =
    let later = remove key rest in if key_eq k key then later else (k, sender) ∷ later

-- The match on the optional sender and the optional answer.
unfoldable pub broadcast : Option ℕ → Option Bytes → Broadcast
broadcast none resp = nobody
broadcast (some sender) none = dropped sender
broadcast (some sender) (some resp) = sent sender resp

module _ (lru : LruCrate) where
  unfoldable pub try_lead_inflight :
      DnsCache lru → Bytes → Bytes → ℕ → DnsCache lru × InflightResult
  try_lead_inflight c transport qname qtype =
      let key = cache_key transport qname qtype in
      elim (find key c.inflight) [
        | some sender ↦ (c, waiter sender)
        | none ↦ (
          record c {
            inflight = (key, c.next_sender) ∷ c.inflight;
            next_sender = c.next_sender + 1;
          },
          leader,
        )
      ]

  unfoldable pub complete_inflight :
      DnsCache lru → Bytes → Bytes → ℕ → Option Bytes → DnsCache lru × Broadcast
  complete_inflight c transport qname qtype resp =
      let key = cache_key transport qname qtype in
      (record c { inflight = remove key c.inflight }, broadcast (find key c.inflight) resp)

  -- Any calls that return, by any tasks, none of which completes the query `key`.
  pub data Runs (key : CacheKey) : DnsCache lru → DnsCache lru → Type 0 where
    done : (c : DnsCache lru) → Runs key c c
    leads :
        (c d : DnsCache lru) (t q : Bytes) (n : ℕ)
        → Runs key (try_lead_inflight c t q n).0 d
        → Runs key c d
    completes :
        (c d : DnsCache lru) (t q : Bytes) (n : ℕ) (resp : Option Bytes)
        → key_eq (cache_key t q n) key ≡ false
        → Runs key (complete_inflight c t q n resp).0 d
        → Runs key c d
    gets :
        (c d e : DnsCache lru) (clock : Clock) (t q : Bytes) (n : ℕ) (answer : CacheResult)
        → get lru c clock t q n ≡ ok (e, answer)
        → Runs key e d
        → Runs key c d
    sets :
        (c d e : DnsCache lru) (clock : Clock) (t q : Bytes) (n : ℕ) (resp : Bytes) (ttl : ℕ)
        (sent : Option SaveDns)
        → set lru c clock t q n resp ttl ≡ ok (e, sent)
        → Runs key e d
        → Runs key c d
