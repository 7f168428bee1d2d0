-- ===== src/Outbound/Proto/Safety.antt =====
-- The parsers of src/outbound/proto.rs on any bytes at all.
use model_lib.Prelude.{
  ℕ, zero, suc, ◌+◌, ◌≤◌, ◌≡◌, inl, inr, refl, sym, ◌∙◌, subst, arith, Bytes, is_utf8, Bool-cases,
  Result, ok, err, ok_inj, length, ltb, leb, ltb→lt, leb→le,
}
use model_lib.Prelude.Words.{of_be_bytes, of_le_bytes}
use model_lib.Std.Reads.{
  Panic, at, slice, Fine, Fine-bind, at-Fine, slice-Fine, be_u16-Fine, Fine-ltb, Fine-leb,
}
use model_lib.Ruleset.Matcher.Engine.{IpAddr, v4, v6}
use model_lib.Router.Route.{domain_target, socket_target}
use model_lib.Outbound.Proto.{
  ProtoError, truncated, not_utf8, missing_addr_type, datagram_too_short, unknown_atyp, Parsed,
  Source, hy2_socket, hy2_domain, hy2_source, hy2_payload, hy2_parse_udp_datagram,
}

-- A source leaves the position inside the buffer.
Inside : Bytes → Result ProtoError Source → Type 0
Inside buf (err e) = Unit
Inside buf (ok s) = s.1 ≤ length buf

Ends : Bytes → Parsed Source → Type 0
Ends buf m = (r : Result ProtoError Source) × (m ≡ ok r) × Inside buf r

hy2_socket-Ends :
    (n : ℕ) (ip_from : ℕ → IpAddr) (buf : Bytes) (cur : ℕ) → Ends buf (hy2_socket n ip_from buf cur)
unfolding hy2_socket Ends Inside
hy2_socket-Ends n ip_from buf cur = elim (Bool-cases (leb (cur + (n + 2)) (length buf))) [
  | inr e ↦ (err truncated, ground (arith, e), tt)
  | inl e ↦
      let room : cur + (n + 2) ≤ length buf = leb→le _ _ e in
      let (octets, p) = slice-Fine buf cur (cur + n) (omega arith) (omega (arith, room)) in
      let (port, q) = be_u16-Fine buf (cur + n) (omega (arith, room)) in
      (
        ok (socket_target (ip_from (of_be_bytes octets)) port, cur + n + 2),
        ground (arith, e, p, q),
        omega (arith, room),
      )
]

hy2_domain-Ends : (buf : Bytes) (cur : ℕ) → Ends buf (hy2_domain buf cur)
unfolding hy2_domain Ends Inside
hy2_domain-Ends buf cur = elim (Bool-cases (ltb cur (length buf))) [
  | inr e ↦ (err truncated, ground (arith, e), tt)
  | inl e ↦
      let (n, at_n) = at-Fine buf cur (ltb→lt _ _ e) in
      elim (Bool-cases (leb (cur + 1 + (n + 2)) (length buf))) [
        | inr f ↦ (err truncated, ground (arith, e, at_n, f), tt)
        | inl f ↦
            let room : cur + 1 + (n + 2) ≤ length buf = leb→le _ _ f in
            let (domain, p) =
              slice-Fine buf (cur + 1) (cur + 1 + n) (omega arith) (omega (arith, room)) in
            let (port, q) = be_u16-Fine buf (cur + 1 + n) (omega (arith, room)) in
            elim (Bool-cases (is_utf8 domain)) [
              | inr g ↦ (err not_utf8, ground (arith, e, at_n, f, p, g), tt)
              | inl g ↦ (
                ok (domain_target domain port, cur + 1 + n + 2),
                ground (arith, e, at_n, f, p, g, q),
                omega (arith, room),
              )
            ]
      ]
]

hy2_source-Ends : (atyp : ℕ) (buf : Bytes) (cur : ℕ) → Ends buf (hy2_source atyp buf cur)
unfolding hy2_source Ends Inside
hy2_source-Ends zero buf cur = hy2_socket-Ends 4 v4 buf cur
hy2_source-Ends (suc zero) buf cur = hy2_socket-Ends 16 v6 buf cur
hy2_source-Ends (suc (suc zero)) buf cur = hy2_domain-Ends buf cur
hy2_source-Ends (suc (suc (suc k))) buf cur =
    (err (unknown_atyp (suc (suc (suc k)))), ground arith, tt)

hy2_payload-Fine :
    (buf : Bytes) (session : ℕ) (r : Result ProtoError Source)
    → Inside buf r
    → Fine (hy2_payload buf session r)
unfolding hy2_payload Inside
hy2_payload-Fine buf session (err e) h = (err e, refl)
hy2_payload-Fine buf session (ok (target, cur)) h =
    Fine-bind (slice buf cur (length buf)) _ (slice-Fine buf cur (length buf) h (omega arith))
      λ payload _. (ok (session, payload, target), refl)

-- `hy2_parse_udp_datagram` answers on any bytes that a server sends, with a datagram or with an
-- error: no index and no slice is out of bounds.
pub hy2_parse_udp_datagram-Fine : (buf : Bytes) → Fine (hy2_parse_udp_datagram buf)
unfolding hy2_parse_udp_datagram Ends
hy2_parse_udp_datagram-Fine buf =
    Fine-leb 8 (length buf) _ _
      (λ room.
        Fine-bind (slice buf 0 4) _ (slice-Fine buf 0 4 (omega arith) (omega arith)) λ session _.
          Fine-ltb 8 (length buf) _ _
            (λ more. Fine-bind (at buf 8) _ (at-Fine buf 8 more) λ atyp _.
              let (r, read, inside) = hy2_source-Ends atyp buf 9 in
              Fine-bind (hy2_source atyp buf 9) _ (r, read)
                λ source e.
                  hy2_payload-Fine buf (of_le_bytes session) source
                    (subst (Inside buf) (ok_inj Panic (sym read ∙ e)) inside))
            (λ _. (err missing_addr_type, refl)))
      (λ _. (err datagram_too_short, refl))
