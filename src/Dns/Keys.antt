-- ===== src/Dns/Keys.antt =====
-- The keys of the DNS cache: `CacheKey` of src/dns/cache.rs, and `encode_dns_key` of
-- src/experimental/cache_file.rs, the key of the cache file's table.
use model_lib.Prelude.{
  ℕ, ◌%◌, ◌^◌, ◌<◌, ◌≡◌, ◌↔◌, refl, ap, arith, Bytes, bytes_eq, bytes_eq_iff, Bool, true, ◌&&◌, [],
  ◌∷◌, ◌++◌, length, length-append, ◌==◌,
}
use model_lib.Prelude.Words.{be_bytes, of_be_bytes, of_be_bytes-be_bytes, length-be_bytes}
use model_lib.Std.Text.{to_ascii_lowercase}

pub record CacheKey : Type 0 where
  pub transport : Bytes
  pub qname : Bytes
  pub qtype : ℕ

unfoldable pub cache_key : Bytes → Bytes → ℕ → CacheKey
cache_key transport qname qtype = record {
  transport = transport;
  qname = to_ascii_lowercase qname;
  qtype = qtype;
}

-- the derived `PartialEq`
unfoldable pub key_eq : CacheKey → CacheKey → Bool
key_eq a b = bytes_eq a.transport b.transport && (bytes_eq a.qname b.qname && a.qtype == b.qtype)

-- Two bytes of the length of the transport's tag, the tag, the name, a zero byte, the type.
unfoldable pub encode_dns_key : Bytes → Bytes → ℕ → Bytes
encode_dns_key transport qname qtype =
    be_bytes 2 (length transport % 2 ^ 16)
    ++ (transport ++ (to_ascii_lowercase qname ++ (0 ∷ be_bytes 2 qtype)))

pub key_eq_iff : (a b : CacheKey) → (key_eq a b ≡ true) ↔ (a ≡ b)
unfolding key_eq
key_eq_iff a b = ground (arith, bytes_eq_iff a.transport b.transport, bytes_eq_iff a.qname b.qname)

pub key_eq_refl : (a : CacheKey) → key_eq a a ≡ true
key_eq_refl a = (key_eq_iff a a).1 refl

split_front :
    (n : ℕ) (a b xs ys : Bytes)
    → length a ≡ n
    → length b ≡ n
    → a ++ xs ≡ b ++ ys
    → (a ≡ b) × (xs ≡ ys)
split_front n [] [] xs ys ha hb h = (refl, h)
split_front n [] (y ∷ b) xs ys ha hb h = absurd (omega arith)
split_front n (x ∷ a) [] xs ys ha hb h = absurd (omega arith)
split_front n (x ∷ a) (y ∷ b) xs ys ha hb h =
    let r = split_front (length a) a b xs ys refl (omega arith) (cc) in (cc, r.1)

split_back : (a b xs ys : Bytes) → length xs ≡ length ys → a ++ xs ≡ b ++ ys → (a ≡ b) × (xs ≡ ys)
split_back a b xs ys e h =
    split_front (length b) a b xs ys
      (omega (arith, length-append a xs, length-append b ys, ap (length {A = ℕ}) h)) refl h

be_bytes_inj : (m n : ℕ) → m < 2 ^ 16 → n < 2 ^ 16 → be_bytes 2 m ≡ be_bytes 2 n → m ≡ n
be_bytes_inj m n hm hn h = omega (
  arith,
  of_be_bytes-be_bytes 2 m (omega arith),
  of_be_bytes-be_bytes 2 n (omega arith),
  ap of_be_bytes h,
)

-- The keys of the cache file's table tell apart all that the keys of the memory do: for transport
-- tags shorter than 65536 bytes and types below 65536, two keys agree only if the tags, the
-- types and the names up to ASCII case agree.
pub encode_dns_key-injective :
    (t u q r : Bytes) (m n : ℕ)
    → length t < 2 ^ 16
    → length u < 2 ^ 16
    → m < 2 ^ 16
    → n < 2 ^ 16
    → encode_dns_key t q m ≡ encode_dns_key u r n
    → cache_key t q m ≡ cache_key u r n
unfolding encode_dns_key cache_key
encode_dns_key-injective t u q r m n ht hu hm hn h =
    let (lens, rest) =
      split_front 2 (be_bytes 2 (length t % 2 ^ 16)) (be_bytes 2 (length u % 2 ^ 16)) _ _
        (length-be_bytes 2 (length t % 2 ^ 16)) (length-be_bytes 2 (length u % 2 ^ 16)) h in
    let len : length t ≡ length u = omega (
      arith,
      be_bytes_inj (length t % 2 ^ 16) (length u % 2 ^ 16) (omega arith) (omega arith) lens,
    ) in
    let (tags, rest2) = split_front (length u) t u _ _ len refl rest in
    let (names, tail) =
      split_back (to_ascii_lowercase q) (to_ascii_lowercase r) (0 ∷ be_bytes 2 m) (0 ∷ be_bytes 2 n)
        (omega (arith, length-be_bytes 2 m, length-be_bytes 2 n)) rest2 in
    let types : m ≡ n = be_bytes_inj m n hm hn (cc) in rw (tags, names, types)
