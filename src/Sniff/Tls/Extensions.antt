-- ===== src/Sniff/Tls/Extensions.antt =====
-- The extensions of a ClientHello, read by the loops of `try_tls` of src/app/sniff.rs.
use model_lib.Prelude.{
  ℕ, zero, suc, ◌+◌, ◌≤◌, ◌<◌, min, ◌≡◌, refl, ap, ◌∙◌, subst, arith, Bytes, bytes_eq, Bool, true,
  false, ◌&&◌, ◌||◌, Option, ok, List, [], ◌∷◌, ◌++◌, append_assoc, length, All, length-append, ltb,
  leb, ◌==◌, if◌then◌else◌, lt→ltb, le→leb,
}
use model_lib.Std.Reads.{Read, be_u16}
use model_lib.Std.Rest.{
  Rest, Rest-length, Rest-skip, Rest-next, at-Rest, slice-Rest, be_u16-Rest, bind-eq, taken, passed,
}
use model_lib.Sniff.Tls.{
  keep_name, server_name, find_h2, h2_name, protocol_names, read_extension, read_extensions,
  is_some,
}
use model_lib.Sniff.Tls.Hello.{
  be16, Extension, server, protocols, other, protocol_bytes, kind_of, body_of, extension_bytes,
  IsOther, has_h2, learn, learn_all,
}

pub be_u16-be16 :
    {buf : Bytes} {pos : ℕ} (n : ℕ) (s : Bytes) → Rest buf pos (be16 n ++ s) → be_u16 buf pos ≡ ok n
be_u16-be16 n s r = be_u16-Rest r ∙ ap ok (omega arith)

find_h2-protocol_bytes :
    (fuel : ℕ) (buf : Bytes) (p : ℕ) (ps : List Bytes) (s : Bytes) (h : Bool)
    → Rest buf p (protocol_bytes ps ++ s)
    → length ps < fuel
    → find_h2 fuel buf p (p + length (protocol_bytes ps)) h ≡ ok (has_h2 ps h)
unfolding find_h2 protocol_bytes
find_h2-protocol_bytes zero buf p ps s h r k = absurd (omega arith)
find_h2-protocol_bytes (suc fuel) buf p [] s h r k =
    let at_end : ltb p (p + 0) ≡ false = ground arith in rw (find_h2, at_end) refl
find_h2-protocol_bytes (suc fuel) buf p (x ∷ ps) s h r k =
    let list_end = p + length (protocol_bytes (x ∷ ps)) in
    let size : length (protocol_bytes (x ∷ ps)) ≡ 1 + length x + length (protocol_bytes ps) =
      omega (arith, length-append x (protocol_bytes ps)) in
    let tail : Rest buf (p + 1) (x ++ (protocol_bytes ps ++ s)) =
      subst (Rest buf (p + 1)) (append_assoc x (protocol_bytes ps) s) (Rest-next r) in
    let behind = Rest-skip x (protocol_bytes ps ++ s) tail in
    let inside : ltb p list_end ≡ true = lt→ltb p list_end (omega (arith, size)) in
    let fits : leb (p + 1 + length x) list_end ≡ true =
      le→leb (p + 1 + length x) list_end (omega (arith, size)) in
    let same_end : list_end ≡ p + 1 + length x + length (protocol_bytes ps) = omega (arith, size) in
    taken _ _ inside (
      bind-eq _ (at-Rest r) (
        taken _ _ fits (
          bind-eq _ (slice-Rest x (protocol_bytes ps ++ s) tail) (
            rw same_end (
              find_h2-protocol_bytes fuel buf (p + 1 + length x) ps s (bytes_eq x h2_name || h)
                behind (omega arith))))))

count-le : (ps : List Bytes) → length ps ≤ length (protocol_bytes ps)
unfolding protocol_bytes
count-le [] = omega arith
count-le (p ∷ ps) = omega (arith, count-le ps, length-append p (protocol_bytes ps))

pub extensions-le : (es : List Extension) → length es ≤ length (extension_bytes es)
unfolding extension_bytes
extensions-le [] = omega arith
extensions-le (e ∷ es) =
    omega (arith, extensions-le es, length-append (body_of e) (extension_bytes es))

-- The arm of the server name, from the position of the extension's body on.
server_name-body :
    (buf : Bytes) (pos data_end : ℕ) (name s : Bytes) (sni : Option Bytes)
    → Rest buf (pos + 2) (0 ∷ (be16 (length name) ++ (name ++ s)))
    → data_end ≡ pos + 5 + length name
    → server_name buf (pos + 2) data_end sni ≡ ok (keep_name name sni)
unfolding server_name
server_name-body buf pos data_end name s sni r e =
    let behind = Rest-skip (be16 (length name)) (name ++ s) (Rest-next r) in
    let at_name : Rest buf (pos + 2 + 3) (name ++ s) =
      subst (λ k. Rest buf k (name ++ s)) (omega arith) behind in
    let inside : ltb (pos + 2) data_end ≡ true = lt→ltb (pos + 2) data_end (omega arith) in
    let room : leb (pos + 2 + 1 + 2) data_end ≡ true =
      le→leb (pos + 2 + 1 + 2) data_end (omega arith) in
    let fits : leb (pos + 2 + 3 + length name) data_end ≡ true =
      le→leb (pos + 2 + 3 + length name) data_end (omega arith) in
    taken _ _ inside (
      bind-eq _ (at-Rest r) (
        taken _ _ room (
          bind-eq _ (be_u16-be16 (length name) (name ++ s) (Rest-next r))
            (taken _ _ fits (bind-eq _ (slice-Rest name s at_name) refl)))))

protocol_names-body :
    (buf : Bytes) (pos data_end : ℕ) (ps : List Bytes) (s : Bytes) (h : Bool)
    → Rest buf pos (be16 (length (protocol_bytes ps)) ++ (protocol_bytes ps ++ s))
    → data_end ≡ pos + 2 + length (protocol_bytes ps)
    → protocol_names buf pos data_end h ≡ ok (has_h2 ps h)
unfolding protocol_names
protocol_names-body buf pos data_end ps s h r e =
    let n = length (protocol_bytes ps) in
    let list_end : min (pos + 2 + n) data_end ≡ pos + 2 + n = omega arith in
    let behind = Rest-skip (be16 n) (protocol_bytes ps ++ s) r in
    let enough : length ps < length buf + 1 =
      omega (arith, count-le ps, Rest-length r, length-append (protocol_bytes ps) s) in
    bind-eq _ (be_u16-be16 n (protocol_bytes ps ++ s) r)
      (rw list_end (find_h2-protocol_bytes (length buf + 1) buf (pos + 2) ps s h behind enough))

-- An extension is read for what it says, whatever stands around it.
read_extension-body :
    (buf : Bytes) (e : Extension) (pos : ℕ) (s : Bytes) (sni : Option Bytes) (h : Bool)
    → IsOther e
    → Rest buf pos (body_of e ++ s)
    → read_extension buf (kind_of e) pos (pos + length (body_of e)) sni h ≡ ok (learn e sni h)
unfolding read_extension
read_extension-body buf (server name) pos s sni h o r =
    let data_end = pos + length (body_of (server name)) in
    let room : leb (pos + 2) data_end ≡ true = le→leb (pos + 2) data_end (omega arith) in
    let behind = Rest-skip (be16 (length name + 3)) (0 ∷ (be16 (length name) ++ (name ++ s))) r in
    taken _ _ room
      (bind-eq _ (server_name-body buf pos data_end name s sni behind (omega arith)) refl)
read_extension-body buf (protocols ps) pos s sni h o r =
    let data_end = pos + length (body_of (protocols ps)) in
    let room : leb (pos + 2) data_end ≡ true = le→leb (pos + 2) data_end (omega arith) in
    taken _ _ room (bind-eq _ (protocol_names-body buf pos data_end ps s h r (omega arith)) refl)
read_extension-body buf (other kind body) pos s sni h o r =
    let room = leb (pos + 2) (pos + length body) in
    let no_name : (kind == 0x0000 && room) ≡ false = ground (arith, o.0) in
    let no_list : (kind == 0x0010 && room) ≡ false = ground (arith, o.1) in
    passed _ _ no_name (passed _ _ no_list refl)

stop_or_go :
    (t : Bool) (known : Option Bytes × Bool) (go : Read (Option Bytes × Bool))
    {later : Option Bytes × Bool}
    → go ≡ ok later
    → elim t as (λ _. Read (Option Bytes × Bool)) [ true ↦ ok (known.0, known.1) | false ↦ go ]
      ≡ ok (if t then known else later)
stop_or_go true known go e = refl
stop_or_go false known go e = e

pub read_extensions-bytes :
    (fuel : ℕ) (buf : Bytes) (pos : ℕ) (es : List Extension) (s : Bytes) (sni : Option Bytes)
    (h : Bool)
    → All IsOther es
    → Rest buf pos (extension_bytes es ++ s)
    → length es < fuel
    → read_extensions fuel buf pos (pos + length (extension_bytes es)) sni h
      ≡ ok (learn_all es sni h)
unfolding read_extensions extension_bytes learn_all
read_extensions-bytes zero buf pos es s sni h o r k = absurd (omega arith)
read_extensions-bytes (suc fuel) buf pos [] s sni h o r k =
    let at_end : leb (pos + 4) (pos + 0) ≡ false = ground arith in passed _ _ at_end refl
read_extensions-bytes (suc fuel) buf pos (e ∷ es) s sni h o r k =
    let body = body_of e in
    let n = length body in
    let more = extension_bytes es in
    let ext_end = pos + length (extension_bytes (e ∷ es)) in
    let known = learn e sni h in
    let size : length (extension_bytes (e ∷ es)) ≡ 4 + n + length more =
      omega (arith, length-append body more) in
    let lengths : Rest buf (pos + 2) (be16 n ++ (body ++ (more ++ s))) =
      subst (λ x. Rest buf (pos + 2) (be16 n ++ x)) (append_assoc body more s)
        (Rest-skip (be16 (kind_of e)) (be16 n ++ ((body ++ more) ++ s)) r) in
    let here : Rest buf (pos + 4) (body ++ (more ++ s)) =
      subst (λ k. Rest buf k (body ++ (more ++ s))) (omega arith)
        (Rest-skip (be16 n) (body ++ (more ++ s)) lengths) in
    let behind = Rest-skip body (more ++ s) here in
    let room : leb (pos + 4) ext_end ≡ true = le→leb (pos + 4) ext_end (omega (arith, size)) in
    let data_end : min (pos + 4 + n) ext_end ≡ pos + 4 + n = omega (arith, size) in
    let same_end : ext_end ≡ pos + 4 + n + length more = omega (arith, size) in
    taken _ _ room (
      bind-eq _ (be_u16-be16 (kind_of e) (be16 n ++ ((body ++ more) ++ s)) r) (
        bind-eq _ (be_u16-be16 n (body ++ (more ++ s)) lengths) (
          rw data_end (
            bind-eq _ (read_extension-body buf e (pos + 4) (more ++ s) sni h o.0 here) (
              stop_or_go (is_some known.0 && known.1) known _ (
                rw (data_end, same_end)
                  (read_extensions-bytes fuel buf (pos + 4 + n) es s known.0 known.1 o.1 behind
                    (omega arith))))))))
