-- ===== src/Outbound/Proto/RoundTrip.antt =====
-- `hy2_parse_udp_datagram` of src/outbound/proto.rs on what `hy2_build_udp_datagram` builds.
use model_lib.Prelude.{
  ℕ, ◌+◌, ◌%◌, ◌^◌, ◌<◌, ◌≡◌, refl, sym, ap, ◌∙◌, subst, arith, Bytes, is_utf8, true, ok, [], ◌∷◌,
  ◌++◌, append-nil, append_assoc, length, length-append, ltb, leb, lt→ltb, le→leb,
}
use model_lib.Prelude.Words.{
  be_bytes, le_bytes, length-be_bytes, of_be_bytes-be_bytes, of_le_bytes-le_bytes,
}
use model_lib.Std.Reads.{at, slice, be_u16}
use model_lib.Std.Rest.{
  Rest, Rest-length, Rest-skip, Rest-next, at-Rest, slice-Rest, be_u16-Rest, bind-eq, taken,
}
use model_lib.Ruleset.Matcher.Engine.{IpAddr, v4, v6}
use model_lib.Router.Route.{Target, domain_target, socket_target}
use model_lib.Outbound.Proto.{
  hy2_socket, hy2_domain, hy2_source, hy2_payload, hy2_write_addr, hy2_build_udp_datagram,
  hy2_parse_udp_datagram,
}

-- A target that fits the frame: a port of two bytes, an address of its size, and a host
-- of at most 255 bytes that is UTF-8, as every `String` is.
abbrev pub Fits : Target → Type 0
Fits (domain_target host port) = (length host < 256) × (is_utf8 host ≡ true) × (port < 2 ^ 16)
Fits (socket_target (v4 ip) port) = (ip < 2 ^ 32) × (port < 2 ^ 16)
Fits (socket_target (v6 ip) port) = (ip < 2 ^ 128) × (port < 2 ^ 16)

-- A port of two bytes, read at a position that has them behind it.
be_u16-be_bytes :
    {buf : Bytes} {pos : ℕ} (port : ℕ) (s : Bytes)
    → port < 2 ^ 16
    → Rest buf pos (be_bytes 2 port ++ s)
    → be_u16 buf pos ≡ ok port
be_u16-be_bytes port s h r = be_u16-Rest r ∙ ap ok (omega arith)

hy2_socket-Rest :
    (n : ℕ) (ip_from : ℕ → IpAddr) (buf : Bytes) (cur ip port : ℕ) (s : Bytes)
    → ip < 256 ^ n
    → port < 2 ^ 16
    → Rest buf cur (be_bytes n ip ++ (be_bytes 2 port ++ s))
    → hy2_socket n ip_from buf cur ≡ ok (ok (socket_target (ip_from ip) port, cur + n + 2))
unfolding hy2_socket
hy2_socket-Rest n ip_from buf cur ip port s hi hp r =
    let octets = be_bytes n ip in
    let count = length-be_bytes n ip in
    let room : leb (cur + (n + 2)) (length buf) ≡ true =
      le→leb _ _
        (omega (arith, count, Rest-length r, length-append octets (be_bytes 2 port ++ s))) in
    let cut : slice buf cur (cur + n) ≡ ok octets =
      subst (λ k. slice buf cur (cur + k) ≡ ok octets) count
        (slice-Rest octets (be_bytes 2 port ++ s) r) in
    let behind : Rest buf (cur + n) (be_bytes 2 port ++ s) =
      subst (λ k. Rest buf (cur + k) (be_bytes 2 port ++ s)) count
        (Rest-skip octets (be_bytes 2 port ++ s) r) in
    taken _ _ room (
      bind-eq _ cut (
        bind-eq _ (be_u16-be_bytes port s hp behind) (
          ap (λ i. ok (ok (socket_target (ip_from i) port, cur + n + 2)))
            (of_be_bytes-be_bytes n ip hi))))

hy2_domain-Rest :
    (buf : Bytes) (cur : ℕ) (host : Bytes) (port : ℕ) (s : Bytes)
    → is_utf8 host ≡ true
    → port < 2 ^ 16
    → Rest buf cur (length host ∷ (host ++ (be_bytes 2 port ++ s)))
    → hy2_domain buf cur ≡ ok (ok (domain_target host port, cur + 1 + length host + 2))
unfolding hy2_domain
hy2_domain-Rest buf cur host port s utf8 hp r =
    let tail = be_bytes 2 port ++ s in
    let whole : length buf ≡ cur + 1 + length host + 2 + length s =
      omega (arith, Rest-length r, length-append host tail) in
    let more : ltb cur (length buf) ≡ true = lt→ltb _ _ (omega (arith, whole)) in
    let room : leb (cur + 1 + (length host + 2)) (length buf) ≡ true =
      le→leb _ _ (omega (arith, whole)) in
    let behind = Rest-skip host tail (Rest-next r) in
    taken _ _ more (
      bind-eq _ (at-Rest r) (
        taken _ _ room (
          bind-eq _ (slice-Rest host tail (Rest-next r))
            (taken _ _ utf8 (bind-eq _ (be_u16-be_bytes port s hp behind) refl)))))

-- The address and its type, at the position of the type.
hy2_source-Rest :
    (buf : Bytes) (target : Target) (s : Bytes)
    → Fits target
    → Rest buf 8 (hy2_write_addr target ++ s)
    → (atyp : ℕ) × (at buf 8 ≡ ok atyp)
      × (hy2_source atyp buf 9 ≡ ok (ok (target, 8 + length (hy2_write_addr target))))
unfolding hy2_write_addr hy2_source
hy2_source-Rest buf (domain_target host port) s (short, utf8, hp) r =
    let whole : length host % 256 ≡ length host = omega arith in
    let size = length-append host (be_bytes 2 port) in
    let here : Rest buf 9 (length host ∷ (host ++ (be_bytes 2 port ++ s))) =
      subst (λ t. Rest buf 9 t) (rw (whole, append_assoc host (be_bytes 2 port) s) refl)
        (Rest-next r) in
    (
      0x02,
      at-Rest r,
      hy2_domain-Rest buf 9 host port s utf8 hp here
          ∙ ap (λ k. ok (ok (domain_target host port, k))) (omega (arith, size)),
    )
hy2_source-Rest buf (socket_target (v4 ip) port) s (hi, hp) r =
    (0x00, at-Rest r, hy2_socket-Rest 4 v4 buf 9 ip port s (omega arith) hp (Rest-next r))
hy2_source-Rest buf (socket_target (v6 ip) port) s (hi, hp) r =
    (0x01, at-Rest r, hy2_socket-Rest 16 v6 buf 9 ip port s (omega arith) hp (Rest-next r))

addr-filled : (target : Target) → 0 < length (hy2_write_addr target)
unfolding hy2_write_addr
addr-filled (domain_target host port) = omega arith
addr-filled (socket_target (v4 ip) port) = omega arith
addr-filled (socket_target (v6 ip) port) = omega arith

-- A UDP datagram that Hysteria2 builds is read back whole: the session, any payload, and the
-- target, a domain as well as an address. The session has four bytes and the
-- target fits the frame.
pub hy2_parse-build :
    (payload : Bytes) (target : Target) (session_id : ℕ)
    → session_id < 2 ^ 32
    → Fits target
    → hy2_parse_udp_datagram (hy2_build_udp_datagram payload target session_id)
      ≡ ok (ok (session_id, payload, target))
unfolding hy2_parse_udp_datagram hy2_build_udp_datagram hy2_payload
hy2_parse-build payload target session_id small fits =
    let session = le_bytes 4 session_id in
    let addr = hy2_write_addr target in
    let fragment = 0 ∷ 0 ∷ 0x00 ∷ 0x01 ∷ (addr ++ payload) in
    let buf = session ++ fragment in
    let start : Rest buf 0 (session ++ fragment) = ([], refl, refl) in
    let at_type : Rest buf 8 (addr ++ payload) =
      (session ++ (0 ∷ 0 ∷ 0x00 ∷ 0x01 ∷ []), refl, refl) in
    let (atyp, found, source) = hy2_source-Rest buf target payload fits at_type in
    let whole : length buf ≡ 8 + length addr + length payload =
      omega (arith, Rest-length at_type, length-append addr payload) in
    let filled : 0 < length addr = addr-filled target in
    let long : leb 8 (length buf) ≡ true = le→leb 8 (length buf) (omega (arith, whole)) in
    let typed : ltb 8 (length buf) ≡ true = lt→ltb 8 (length buf) (omega (arith, whole, filled)) in
    let behind : Rest buf (8 + length addr) payload = Rest-skip addr payload at_type in
    let cut : slice buf (8 + length addr) (length buf) ≡ ok payload =
      subst (λ k. slice buf (8 + length addr) k ≡ ok payload) (sym whole)
        (slice-Rest payload []
          (subst (Rest buf (8 + length addr)) (sym (append-nil payload)) behind)) in
    taken _ _ long (
      bind-eq _ (slice-Rest session fragment start) (
        taken _ _ typed (
          bind-eq _ found (
            bind-eq _ source (
              bind-eq _ cut (
                ap (λ n. ok (ok (n, payload, target)))
                  (of_le_bytes-le_bytes 4 session_id (omega arith))))))))
