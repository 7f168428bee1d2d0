-- ===== src/Ruleset/Codec/Entries.antt =====
-- Entries of a fixed size: the CIDR and port codecs of compiler.rs and loader.rs.
use model_lib.Prelude.{
  ℕ, ◌*◌, ◌/◌, ◌^◌, ◌<◌, ◌≡◌, refl, sym, ap, arith, Bytes, ok, true, List, [], ◌∷◌, ◌++◌, map,
  length, length-append, take, drop, take-append, drop-append, All, ==_iff, ◌==◌, append_assoc,
}
use model_lib.Prelude.Words.{
  le_bytes, be_bytes, length-be_bytes, of_be_bytes-be_bytes, of_le_bytes-le_bytes,
}
use model_lib.Ruleset.Format.{
  ip_cidr_v4, ip_cidr_v6, port, ipv4_entry_len, ipv6_entry_len, port_entry_len,
}
use model_lib.Ruleset.Loader.{
  Ipv4Addr, Ipv6Addr, chunks, ipv4_entry, ipv6_entry, port_entry, decode_ipv4_cidrs,
  decode_ipv6_cidrs, decode_ports,
}
use model_lib.Ruleset.Compiler.Encode.{
  encode_ipv4_cidrs, encode_ipv6_cidrs, encode_ports, entry_count_for,
}
use native.Mathlib.Nat.{mul-div_cancel}

-- Entries written one after the other.
abbrev pub encode_all {ℓ} : {A : Type ℓ} → (A → Bytes) → List A → Bytes
encode_all f [] = []
encode_all f (x ∷ xs) = f x ++ encode_all f xs

module _ {ℓ} {A : Type ℓ} (f : A → Bytes) (g : Bytes → A) (n : ℕ)
    (size : (x : A) → length (f x) ≡ n) where
  length-encode_all : (xs : List A) → length (encode_all f xs) ≡ length xs * n
  length-encode_all [] = omega arith
  length-encode_all (x ∷ xs) =
      omega (arith, length-append (f x) (encode_all f xs), size x, length-encode_all xs)

  chunks-encode_all : (xs : List A) → chunks (length xs) n (encode_all f xs) ≡ map f xs
  unfolding chunks
  chunks-encode_all [] = refl
  chunks-encode_all (x ∷ xs) =
      let front : take n (f x ++ encode_all f xs) ≡ f x =
        rw (← size x) (take-append (f x) (encode_all f xs)) in
      let back : drop n (f x ++ encode_all f xs) ≡ encode_all f xs =
        rw (← size x) (drop-append (f x) (encode_all f xs)) in
      rw (front, back) (ap (◌∷◌ (f x)) (chunks-encode_all xs))

  map_back :
      (P : A → Type 0) (xs : List A)
      → ((x : A) → P x → g (f x) ≡ x)
      → All P xs
      → map g (map f xs) ≡ xs
  map_back P [] inv h = refl
  map_back P (x ∷ xs) inv h = rw (inv x h.0, map_back P xs inv h.1)

  pub count-encode_all : (xs : List A) → 0 < n → length (encode_all f xs) / n ≡ length xs
  count-encode_all xs pos = rw (length-encode_all xs, mul-div_cancel (length xs) pos)

abbrev pub IsIpv4 : Ipv4Addr × ℕ → Type 0
IsIpv4 e = e.0 < 256 ^ 4

abbrev pub IsIpv6 : Ipv6Addr × ℕ → Type 0
IsIpv6 e = e.0 < 256 ^ 16

abbrev pub IsPortRange : ℕ × ℕ → Type 0
IsPortRange e = (e.0 < 256 ^ 2) × (e.1 < 256 ^ 2)

abbrev ipv4_bytes : Ipv4Addr × ℕ → Bytes
ipv4_bytes e = be_bytes 4 e.0 ++ (e.1 ∷ [])

abbrev ipv6_bytes : Ipv6Addr × ℕ → Bytes
ipv6_bytes e = be_bytes 16 e.0 ++ (e.1 ∷ [])

abbrev port_bytes : ℕ × ℕ → Bytes
port_bytes e = le_bytes 2 e.0 ++ le_bytes 2 e.1

encode_ipv4_cidrs-all : (xs : List (Ipv4Addr × ℕ)) → encode_ipv4_cidrs xs ≡ encode_all ipv4_bytes xs
unfolding encode_ipv4_cidrs
encode_ipv4_cidrs-all [] = refl
encode_ipv4_cidrs-all ((a, p) ∷ xs) =
    rw (encode_ipv4_cidrs-all xs)
      (sym (append_assoc (be_bytes 4 a) (p ∷ []) (encode_all ipv4_bytes xs)))

encode_ipv6_cidrs-all : (xs : List (Ipv6Addr × ℕ)) → encode_ipv6_cidrs xs ≡ encode_all ipv6_bytes xs
unfolding encode_ipv6_cidrs
encode_ipv6_cidrs-all [] = refl
encode_ipv6_cidrs-all ((a, p) ∷ xs) =
    rw (encode_ipv6_cidrs-all xs)
      (sym (append_assoc (be_bytes 16 a) (p ∷ []) (encode_all ipv6_bytes xs)))

encode_ports-all : (xs : List (ℕ × ℕ)) → encode_ports xs ≡ encode_all port_bytes xs
unfolding encode_ports
encode_ports-all [] = refl
encode_ports-all ((a, b) ∷ xs) =
    rw (encode_ports-all xs)
      (sym (append_assoc (le_bytes 2 a) (le_bytes 2 b) (encode_all port_bytes xs)))

length-ipv4_bytes : (e : Ipv4Addr × ℕ) → length (ipv4_bytes e) ≡ ipv4_entry_len
length-ipv4_bytes e =
    omega (arith, length-append (be_bytes 4 e.0) (e.1 ∷ []), length-be_bytes 4 e.0)

length-ipv6_bytes : (e : Ipv6Addr × ℕ) → length (ipv6_bytes e) ≡ ipv6_entry_len
length-ipv6_bytes e =
    omega (arith, length-append (be_bytes 16 e.0) (e.1 ∷ []), length-be_bytes 16 e.0)

length-port_bytes : (e : ℕ × ℕ) → length (port_bytes e) ≡ port_entry_len
length-port_bytes e = refl

ipv4_entry-ipv4_bytes : (e : Ipv4Addr × ℕ) → IsIpv4 e → ipv4_entry (ipv4_bytes e) ≡ e
unfolding ipv4_entry
ipv4_entry-ipv4_bytes e h = λ i. (of_be_bytes-be_bytes 4 e.0 h i, e.1)

ipv6_entry-ipv6_bytes : (e : Ipv6Addr × ℕ) → IsIpv6 e → ipv6_entry (ipv6_bytes e) ≡ e
unfolding ipv6_entry
ipv6_entry-ipv6_bytes e h = λ i. (of_be_bytes-be_bytes 16 e.0 h i, e.1)

port_entry-port_bytes : (e : ℕ × ℕ) → IsPortRange e → port_entry (port_bytes e) ≡ e
unfolding port_entry
port_entry-port_bytes e h =
    λ i. (of_le_bytes-le_bytes 2 e.0 h.0 i, of_le_bytes-le_bytes 2 e.1 h.1 i)

same_length : (a b : ℕ) → a ≡ b → (a == b) ≡ true
same_length a b e = (==_iff a b).1 e

-- Under the count that `serialize` announces, each IPv4 CIDR with an address of four bytes is read
-- back as it was written.
pub decode_ipv4_cidrs-encode :
    (xs : List (Ipv4Addr × ℕ))
    → All IsIpv4 xs
    → decode_ipv4_cidrs (encode_ipv4_cidrs xs) (entry_count_for ip_cidr_v4 (encode_ipv4_cidrs xs))
      ≡ ok xs
unfolding decode_ipv4_cidrs entry_count_for
decode_ipv4_cidrs-encode xs h =
    rw
      (
        encode_ipv4_cidrs-all xs,
        count-encode_all ipv4_bytes ipv4_entry 5 length-ipv4_bytes xs (omega arith),
        same_length _ _ (length-encode_all ipv4_bytes ipv4_entry 5 length-ipv4_bytes xs),
        chunks-encode_all ipv4_bytes ipv4_entry 5 length-ipv4_bytes xs,
      )
      (ap ok (map_back ipv4_bytes ipv4_entry 5 length-ipv4_bytes IsIpv4 xs ipv4_entry-ipv4_bytes h))

-- Under the count that `serialize` announces, each IPv6 CIDR with an address of sixteen bytes is
-- read back as it was written.
pub decode_ipv6_cidrs-encode :
    (xs : List (Ipv6Addr × ℕ))
    → All IsIpv6 xs
    → decode_ipv6_cidrs (encode_ipv6_cidrs xs) (entry_count_for ip_cidr_v6 (encode_ipv6_cidrs xs))
      ≡ ok xs
unfolding decode_ipv6_cidrs entry_count_for
decode_ipv6_cidrs-encode xs h =
    rw
      (
        encode_ipv6_cidrs-all xs,
        count-encode_all ipv6_bytes ipv6_entry 17 length-ipv6_bytes xs (omega arith),
        same_length _ _ (length-encode_all ipv6_bytes ipv6_entry 17 length-ipv6_bytes xs),
        chunks-encode_all ipv6_bytes ipv6_entry 17 length-ipv6_bytes xs,
      )
      (ap ok
        (map_back ipv6_bytes ipv6_entry 17 length-ipv6_bytes IsIpv6 xs ipv6_entry-ipv6_bytes h))

-- Under the count that `serialize` announces, each range of two-byte ports is read back as it was
-- written.
pub decode_ports-encode :
    (xs : List (ℕ × ℕ))
    → All IsPortRange xs
    → decode_ports (encode_ports xs) (entry_count_for port (encode_ports xs)) ≡ ok xs
unfolding decode_ports entry_count_for
decode_ports-encode xs h =
    rw
      (
        encode_ports-all xs,
        count-encode_all port_bytes port_entry 4 length-port_bytes xs (omega arith),
        same_length _ _ (length-encode_all port_bytes port_entry 4 length-port_bytes xs),
        chunks-encode_all port_bytes port_entry 4 length-port_bytes xs,
      )
      (ap ok
        (map_back port_bytes port_entry 4 length-port_bytes IsPortRange xs port_entry-port_bytes h))
