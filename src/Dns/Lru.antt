-- ===== src/Dns/Lru.antt =====
-- The `lru` crate, of which src/dns/cache.rs calls `LruCache` on its keys and entries: a parameter
-- of the model.
use model_lib.Prelude.{ℕ, ◌<◌, ◌≡◌, Bytes, false, Option, none, some}
use model_lib.Dns.Keys.{CacheKey, key_eq}

-- An `Instant` is a number of nanoseconds.
pub record CacheEntry : Type 0 where
  pub resp : Bytes
  pub expires : ℕ

pub record LruCrate : Type 1 where
  pub LruCache : Type 0
  -- `new` on a `NonZeroUsize`, `get`, which moves the entry to the front, `put`, `pop`, `len`, `cap`
  pub new : ℕ → LruCache
  pub get : LruCache → CacheKey → LruCache × Option CacheEntry
  pub put : LruCache → CacheKey → CacheEntry → LruCache
  pub pop : LruCache → CacheKey → LruCache
  pub len : LruCache → ℕ
  pub cap : LruCache → ℕ
  -- `peek`, a `get` that moves nothing: the source does not call it, the laws are about it
  pub peek : LruCache → CacheKey → Option CacheEntry

-- What the crate documents: a key finds what was put last under it, unless that was popped or
-- gave way to others; a `put` finds room for its own entry.
pub record IsLawful (lru : LruCrate) : Type 0 where
  pub peek-new : (n : ℕ) (k : CacheKey) → lru.peek (lru.new n) k ≡ none
  pub get-found : (s : lru.LruCache) (k : CacheKey) → (lru.get s k).1 ≡ lru.peek s k
  pub get-peek : (s : lru.LruCache) (k q : CacheKey) → lru.peek (lru.get s k).0 q ≡ lru.peek s q
  pub put-same :
      (s : lru.LruCache) (k : CacheKey) (e : CacheEntry)
      → 0 < lru.cap s
      → lru.peek (lru.put s k e) k ≡ some e
  pub put-other :
      (s : lru.LruCache) (k q : CacheKey) (e x : CacheEntry)
      → key_eq k q ≡ false
      → lru.peek (lru.put s k e) q ≡ some x
      → lru.peek s q ≡ some x
  pub pop-same : (s : lru.LruCache) (k : CacheKey) → lru.peek (lru.pop s k) k ≡ none
  pub pop-other :
      (s : lru.LruCache) (k q : CacheKey)
      → key_eq k q ≡ false
      → lru.peek (lru.pop s k) q ≡ lru.peek s q
  pub cap-new : (n : ℕ) → lru.cap (lru.new n) ≡ n
  pub cap-get : (s : lru.LruCache) (k : CacheKey) → lru.cap (lru.get s k).0 ≡ lru.cap s
  pub cap-put :
      (s : lru.LruCache) (k : CacheKey) (e : CacheEntry) → lru.cap (lru.put s k e) ≡ lru.cap s
  pub cap-pop : (s : lru.LruCache) (k : CacheKey) → lru.cap (lru.pop s k) ≡ lru.cap s
