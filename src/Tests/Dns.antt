-- ===== src/Tests/Dns.antt =====
-- The DNS cache at concrete inputs.
use model_lib.Prelude.{
  ℕ, ◌+◌, ◌≡◌, ◌⊎◌, refl, arith, Bytes, bytes_eq, true, Option, none, some, ok, err, ◌>>=◌, List,
  [], ◌∷◌, if◌then◌else◌,
}
use model_lib.Std.Reads.{Read, instant_overflow}
use model_lib.Dns.Keys.{cache_key, key_eq, encode_dns_key, encode_dns_key-injective}
use model_lib.Dns.Cache.{
  DnsCache, Clock, CacheResult, instant_add, CacheFileReader, SaveDns, hit, stale, miss, get, set,
  with_options, from_secs, ask_persisted, len, save_dns_cache_async, answer_from, insert_memory,
}
use model_lib.Dns.Cache.Answers.{get-set, get-restarted, aged, remembered, answer, stored_by}
use model_lib.Dns.Cache.History.{run-Tells}
use model_lib.Dns.Cache.Calls.{Tells, latest, run, gets, sets, Call}
use model_lib.Dns.Cache.Inflight.{
  leader, waiter, try_lead_inflight, complete_inflight, Runs, broadcast,
}
use model_lib.Dns.Cache.Inflight.Leaders.{one_leader}
use model_lib.Tests.Lru.{lru_crate, lru_crate-IsLawful, seek, without, to_front}
use model_lib.Std.Text.{to_ascii_lowercase}

-- The last instant is 1000 seconds.
abbrev at : ℕ → Clock
at s = record {
  now = from_secs s;
  stored_at = from_secs s;
  unix_now = 1700000000 + s;
  last_instant = from_secs 1000;
}

abbrev lower_name : Bytes
lower_name = b'a' ∷ (b'.' ∷ (b'i' ∷ (b'o' ∷ [])))

abbrev upper_name : Bytes
upper_name = b'A' ∷ (b'.' ∷ (b'i' ∷ (b'o' ∷ [])))

abbrev small : DnsCache lru_crate
small = with_options lru_crate 2 300 (some (from_secs 30)) none (some (record { store_dns = true }))

-- An answer is kept for 60 seconds, and asked for at `s`.
abbrev answer_at : ℕ → Read CacheResult
answer_at s = set lru_crate small (at 0) [] upper_name 1 (7 ∷ []) 60 >>= λ stored.
    answer (get lru_crate stored.0 (at s) [] lower_name 1)

-- fresh for 60 seconds, stale for 30 more
answers_test :
    (answer_at 59 ≡ ok (hit (7 ∷ [])))
    × (answer_at 60 ≡ ok (stale (7 ∷ [])))
    × (answer_at 90 ≡ ok miss)
unfolding get set with_options insert_memory instant_add ask_persisted answer_from lru_crate seek
    without to_front cache_key key_eq bytes_eq to_ascii_lowercase len save_dns_cache_async
answers_test = (refl, refl, refl)

-- The window would end beyond the last instant.
overflow_test :
    (set lru_crate small (at 950) [] upper_name 1 (7 ∷ []) 40 >>= λ stored.
    answer (get lru_crate stored.0 (at 995) [] lower_name 1))
    ≡ err instant_overflow
unfolding get set with_options insert_memory instant_add ask_persisted answer_from lru_crate seek
    without to_front cache_key key_eq bytes_eq to_ascii_lowercase len save_dns_cache_async
overflow_test = refl

get-set_example :
    answer_at 60
    ≡ remembered
        (at 60)
        (some (from_secs 30))
        (from_secs 60)
        (7 ∷ [])
        (answer (ask_persisted lru_crate small (at 60) [] lower_name 1))
unfolding with_options to_ascii_lowercase lru_crate
get-set_example =
    get-set lru_crate lru_crate-IsLawful small (at 0) (at 60) [] upper_name lower_name 1 (7 ∷ []) 60
      (omega arith) refl

abbrev row : SaveDns
row = record { key = encode_dns_key [] upper_name 1; expire_at = 1700000060; raw = 7 ∷ [] }

abbrev reader : CacheFileReader
reader = record {
  store_dns = true;
  table = λ key. if bytes_eq key row.key then some (row.expire_at, row.raw) else none;
}

abbrev stored : DnsCache lru_crate
stored = stored_by lru_crate lru_crate-IsLawful small (at 0) [] upper_name 1 (7 ∷ []) 60

get-restarted_example :
    answer
      (get lru_crate (with_options lru_crate 9 300 none (some reader) none) (at 59) [] lower_name 1)
    ≡ ok (aged none (from_secs 1700000060) (from_secs 1700000059) (7 ∷ []) miss)
unfolding set with_options insert_memory instant_add save_dns_cache_async encode_dns_key
    to_ascii_lowercase bytes_eq
get-restarted_example =
    get-restarted lru_crate lru_crate-IsLawful small stored (at 0) (at 59) [] upper_name lower_name
      1 (7 ∷ []) 60 row reader none 9 300 none refl refl refl refl (omega arith)

abbrev calls : List Call
calls = gets (at 3) [] lower_name 1 ∷ (sets (at 0) [] upper_name 1 (7 ∷ []) 60 ∷ [])

run-Tells_example :
    (p : DnsCache lru_crate × CacheResult) × ((run lru_crate calls
          (with_options lru_crate 2 300 (some (from_secs 30)) none none)
        >>= λ c. get lru_crate c (at 60) [] lower_name 1)
      ≡ ok p)
    × Tells lru_crate
        (some (from_secs 30))
        (from_secs 60)
        (latest 300 calls (cache_key [] lower_name 1))
        p.1
run-Tells_example =
    run-Tells lru_crate lru_crate-IsLawful 2 300 (some (from_secs 30)) (from_secs 60) calls (at 60)
      [] lower_name 1 (omega arith, ((omega arith, omega arith), tt)) (omega arith)

one_leader_example :
    (sender : ℕ) × (((try_lead_inflight lru_crate small [] upper_name 1).1 ≡ leader)
      ⊎ ((try_lead_inflight lru_crate small [] upper_name 1).1 ≡ waiter sender))
    × ((try_lead_inflight lru_crate
          (try_lead_inflight lru_crate small [] upper_name 1).0
          []
          upper_name
          1).1
        ≡ waiter sender)
    × ((resp : Option Bytes)
        → ((complete_inflight lru_crate
              (try_lead_inflight lru_crate small [] upper_name 1).0
              []
              upper_name
              1
              resp).1
            ≡ broadcast (some sender) resp)
          × ((try_lead_inflight lru_crate
                (complete_inflight lru_crate
                  (try_lead_inflight lru_crate small [] upper_name 1).0
                  []
                  upper_name
                  1
                  resp).0
                []
                upper_name
                1).1
              ≡ leader))
one_leader_example =
    one_leader lru_crate small (try_lead_inflight lru_crate small [] upper_name 1).0 [] upper_name 1
      (Runs.done (try_lead_inflight lru_crate small [] upper_name 1).0)

encode_dns_key-injective_example : cache_key [] upper_name 1 ≡ cache_key [] lower_name 1
unfolding encode_dns_key to_ascii_lowercase
encode_dns_key-injective_example =
    encode_dns_key-injective [] [] upper_name lower_name 1 1 (omega arith) (omega arith)
      (omega arith) (omega arith) refl
