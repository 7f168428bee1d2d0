-- ===== src/Outbound/Proto/Frames.antt =====
-- The UDP frames of VLESS, src/outbound/proto.rs, one behind the other in a stream.
use model_lib.Prelude.{
  ℕ, zero, suc, ◌+◌, ◌%◌, ◌^◌, ◌<◌, ◌≡◌, refl, ap, ◌∙◌, arith, Bytes, true, ok, err, ◌>>=◌, List,
  [], ◌∷◌, ◌++◌, length, take, drop, All, take-append, drop-append, leb, le→leb,
}
use model_lib.Std.Rest.{Rest, be_u16-Rest, bind-eq, taken}
use model_lib.Outbound.Proto.{Parsed, vless_encode_udp_frame, vless_decode_udp_frame_len}

-- The frames of some payloads, and what follows.
unfoldable pub stream : List Bytes → Bytes → Bytes
stream [] s = s
stream (p ∷ payloads) s = vless_encode_udp_frame p ++ stream payloads s

-- `n` payloads, each behind its head, and what is behind them.
unfoldable pub read_stream : ℕ → Bytes → Parsed (List Bytes × Bytes)
read_stream zero buf = ok (ok ([], buf))
read_stream (suc n) buf = do
  parsed ← vless_decode_udp_frame_len buf
  elim parsed [
    | err e ↦ ok (err e)
    | ok p ↦ do
      later ← read_stream n (drop (p.0 + p.1) buf)
      ok (later >>= λ rest. ok (take p.1 (drop p.0 buf) ∷ rest.0, rest.1))
  ]

decode-encode :
    (payload s : Bytes)
    → vless_decode_udp_frame_len (vless_encode_udp_frame payload ++ s)
      ≡ ok (ok (2, length payload % 2 ^ 16))
unfolding vless_decode_udp_frame_len vless_encode_udp_frame
decode-encode payload s =
    let buf = vless_encode_udp_frame payload ++ s in
    let r : Rest buf 0 buf = ([], refl, refl) in
    let room : leb 2 (length buf) ≡ true = le→leb _ _ (omega arith) in
    taken _ _ room (bind-eq _ (be_u16-Rest r) (ap (λ k. ok (ok (2, k))) (omega arith)))

-- VLESS's UDP frames keep the bounds of the packets: from the frames of any payloads of less than
-- 65536 bytes, one behind the other, the heads give back the payloads in order, and what
-- follows them is left.
pub read_stream-stream :
    (payloads : List Bytes) (s : Bytes)
    → All (λ p. length p < 2 ^ 16) payloads
    → read_stream (length payloads) (stream payloads s) ≡ ok (ok (payloads, s))
unfolding read_stream stream vless_encode_udp_frame
read_stream-stream [] s h = refl
read_stream-stream (p ∷ payloads) s h =
    let later = stream payloads s in
    let size : length p % 2 ^ 16 ≡ length p = omega (arith, h.0) in
    bind-eq _ (decode-encode p later ∙ ap (λ k. ok (ok (2, k))) size) (
      bind-eq _
        (ap (read_stream (length payloads)) (drop_frame p later)
          ∙ read_stream-stream payloads s h.1)
        (ap (λ x. ok (ok (x ∷ payloads, s))) (take-append p later)))
  where
    drop_frame : (p later : Bytes) → drop (2 + length p) (vless_encode_udp_frame p ++ later) ≡ later
    drop_frame p later =
        let two : 2 + length p ≡ suc (suc (length p)) = omega arith in rw two (drop-append p later)
