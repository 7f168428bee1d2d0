-- ===== src/Sniff/Tls/Safety.antt =====
-- The reads and the loops of `try_tls` of src/app/sniff.rs, on any bytes at all.
use model_lib.Prelude.{
  ℕ, zero, suc, ◌+◌, ◌-◌, ◌≤◌, ◌<◌, min, refl, arith, Bytes, bytes_eq, Bool, false, not, ◌&&◌, ◌||◌,
  Option, none, length, ◌==◌,
}
use model_lib.Std.Reads.{
  at, slice, be_u16, Fine, Fine-bind, at-Fine, slice-Fine, be_u16-Fine, Fine-ltb, Fine-leb,
  Fine-and-leb, Fine-case,
}
use model_lib.Sniff.Tls.{
  keep_name, server_name, find_h2, h2_name, protocol_names, read_extension, read_extensions,
  tls_result, is_some, from_extensions, from_compression, from_ciphers, from_session, try_tls,
}

server_name-Fine :
    (buf : Bytes) (p data_end : ℕ) (sni : Option Bytes)
    → data_end ≤ length buf
    → Fine (server_name buf p data_end sni)
unfolding server_name
server_name-Fine buf p data_end sni h =
    Fine-ltb p data_end _ _
      (λ inside. Fine-bind (at buf p) _ (at-Fine buf p (omega arith)) λ kind _.
        Fine-and-leb (kind == 0) (p + 1 + 2) data_end _ _
          (λ room. Fine-bind (be_u16 buf (p + 1)) _ (be_u16-Fine buf (p + 1) (omega arith)) λ n _.
            Fine-leb (p + 3 + n) data_end _ _
              (λ all.
                Fine-bind (slice buf (p + 3) (p + 3 + n)) _
                  (slice-Fine buf (p + 3) (p + 3 + n) (omega arith) (omega arith))
                  (λ name _. (keep_name name sni, refl)))
              (λ _. (sni, refl)))
          (sni, refl))
      (λ _. (sni, refl))

find_h2-Fine :
    (fuel : ℕ) (buf : Bytes) (p list_end : ℕ) (is_h2 : Bool)
    → list_end ≤ length buf
    → list_end - p < fuel
    → Fine (find_h2 fuel buf p list_end is_h2)
unfolding find_h2
find_h2-Fine zero buf p list_end is_h2 h f = absurd (omega arith)
find_h2-Fine (suc fuel) buf p list_end is_h2 h f =
    Fine-ltb p list_end _ _
      (λ inside. Fine-bind (at buf p) _ (at-Fine buf p (omega arith)) λ n _.
        Fine-leb (p + 1 + n) list_end _ _
          (λ all.
            Fine-bind (slice buf (p + 1) (p + 1 + n)) _
              (slice-Fine buf (p + 1) (p + 1 + n) (omega arith) (omega arith))
              (λ proto _.
                find_h2-Fine fuel buf (p + 1 + n) list_end (bytes_eq proto h2_name || is_h2) h
                  (omega arith)))
          (λ _. (is_h2, refl)))
      (λ _. (is_h2, refl))

protocol_names-Fine :
    (buf : Bytes) (pos data_end : ℕ) (is_h2 : Bool)
    → data_end ≤ length buf
    → pos + 2 ≤ data_end
    → Fine (protocol_names buf pos data_end is_h2)
unfolding protocol_names
protocol_names-Fine buf pos data_end is_h2 h k =
    Fine-bind (be_u16 buf pos) _ (be_u16-Fine buf pos (omega arith)) λ n _.
      find_h2-Fine (length buf + 1) buf (pos + 2) (min (pos + 2 + n) data_end) is_h2 (omega arith)
        (omega arith)

read_extension-Fine :
    (buf : Bytes) (ext_type pos data_end : ℕ) (sni : Option Bytes) (is_h2 : Bool)
    → data_end ≤ length buf
    → Fine (read_extension buf ext_type pos data_end sni is_h2)
unfolding read_extension
read_extension-Fine buf ext_type pos data_end sni is_h2 h =
    Fine-and-leb (ext_type == 0x0000) (pos + 2) data_end _ _
      (λ room.
        Fine-bind (server_name buf (pos + 2) data_end sni) _
          (server_name-Fine buf (pos + 2) data_end sni h) (λ name _. ((name, is_h2), refl)))
      (Fine-and-leb (ext_type == 0x0010) (pos + 2) data_end _ _
        (λ room.
          Fine-bind (protocol_names buf pos data_end is_h2) _
            (protocol_names-Fine buf pos data_end is_h2 h room) (λ found _. ((sni, found), refl)))
        ((sni, is_h2), refl))

read_extensions-Fine :
    (fuel : ℕ) (buf : Bytes) (pos ext_end : ℕ) (sni : Option Bytes) (is_h2 : Bool)
    → ext_end ≤ length buf
    → ext_end - pos < fuel
    → Fine (read_extensions fuel buf pos ext_end sni is_h2)
unfolding read_extensions
read_extensions-Fine zero buf pos ext_end sni is_h2 h f = absurd (omega arith)
read_extensions-Fine (suc fuel) buf pos ext_end sni is_h2 h f =
    Fine-leb (pos + 4) ext_end _ _
      (λ room. Fine-bind (be_u16 buf pos) _ (be_u16-Fine buf pos (omega arith)) λ ext_type _.
        Fine-bind (be_u16 buf (pos + 2)) _ (be_u16-Fine buf (pos + 2) (omega arith)) λ n _.
          let data_end = min (pos + 4 + n) ext_end in
          Fine-bind (read_extension buf ext_type (pos + 4) data_end sni is_h2) _
            (read_extension-Fine buf ext_type (pos + 4) data_end sni is_h2 (omega arith))
            λ r _.
              Fine-case (is_some r.0 && r.1) _ _ (r, refl)
                (read_extensions-Fine fuel buf data_end ext_end r.0 r.1 h (omega arith)))
      (λ _. ((sni, is_h2), refl))

from_extensions-Fine : (buf : Bytes) (pos : ℕ) → Fine (from_extensions buf pos)
unfolding from_extensions
from_extensions-Fine buf pos =
    Fine-ltb (length buf) (pos + 2) _ _ (λ _. (none, refl))
      λ room. Fine-bind (be_u16 buf pos) _ (be_u16-Fine buf pos (omega arith)) λ n _.
        Fine-bind
          (read_extensions (length buf + 1) buf (pos + 2) (min (pos + 2 + n) (length buf)) none
            false)
          _
          (read_extensions-Fine (length buf + 1) buf (pos + 2) (min (pos + 2 + n) (length buf)) none
            false (omega arith) (omega arith))
          (λ found _. (tls_result found, refl))

from_compression-Fine : (buf : Bytes) (pos : ℕ) → Fine (from_compression buf pos)
unfolding from_compression
from_compression-Fine buf pos =
    Fine-ltb (length buf) (pos + 1) _ _ (λ _. (none, refl))
      λ room.
        Fine-bind (at buf pos) _ (at-Fine buf pos (omega arith))
          λ n _. from_extensions-Fine buf (pos + (1 + n))

from_ciphers-Fine : (buf : Bytes) (pos : ℕ) → Fine (from_ciphers buf pos)
unfolding from_ciphers
from_ciphers-Fine buf pos =
    Fine-ltb (length buf) (pos + 2) _ _ (λ _. (none, refl))
      λ room.
        Fine-bind (be_u16 buf pos) _ (be_u16-Fine buf pos (omega arith))
          λ n _. from_compression-Fine buf (pos + (2 + n))

from_session-Fine : (buf : Bytes) (pos : ℕ) → Fine (from_session buf pos)
unfolding from_session
from_session-Fine buf pos =
    Fine-leb (length buf) pos _ _ (λ _. (none, refl))
      λ room.
        Fine-bind (at buf pos) _ (at-Fine buf pos room) λ n _. from_ciphers-Fine buf (pos + (1 + n))

-- Whatever bytes a peer sends, `try_tls` ends and reads inside the buffer: no index and no slice
-- is out of bounds, and as much fuel as there are bytes, plus one, is enough for each loop.
pub try_tls-Fine : (buf : Bytes) → Fine (try_tls buf)
unfolding try_tls
try_tls-Fine buf =
    Fine-ltb (length buf) 43 _ _ (λ _. (none, refl))
      λ room. Fine-bind (at buf 0) _ (at-Fine buf 0 (omega arith)) λ a _.
        Fine-bind (at buf 1) _ (at-Fine buf 1 (omega arith)) λ b _.
          Fine-bind (at buf 5) _ (at-Fine buf 5 (omega arith)) λ c _.
            Fine-case (not (a == 0x16) || (not (b == 0x03) || not (c == 0x01))) _ _ (none, refl)
              (from_session-Fine buf (5 + 4 + 2 + 32))
