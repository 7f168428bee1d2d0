-- ===== src/Sniff/Packet/Safety.antt =====
-- `sniff` and `sniff_packet` of src/app/sniff.rs on any bytes, and the order of the sniffers.
use model_lib.Prelude.{
  ◌<◌, ◌≡◌, refl, arith, Bytes, Bool, true, false, ◌||◌, Option, none, some, ok, List, [], ◌∷◌,
  length, is_empty, any, if◌then◌else◌,
}
use model_lib.Router.Rule.{SniffType, tls, http, quic, ssh, bittorrent}
use model_lib.Sniff.Outcome.{SniffResult}
use model_lib.Std.Reads.{Read}
use model_lib.Sniff.Tls.Safety.{try_tls-Fine}
use model_lib.Sniff.Http.{try_http_host}
use model_lib.Sniff.Quic.Safety.{try_quic-Fine}
use model_lib.Sniff.Signatures.{try_ssh, try_bittorrent}
use model_lib.Sniff.Packet.{
  defaults, effective_types, try_type, try_types, sniff, is_quic, try_quic_types, sniff_packet,
}

-- What a sniffer answers, which its safety makes a total function.
abbrev pub answer_of : SniffType → Bytes → Option SniffResult
answer_of tls buf = (try_tls-Fine buf).0
answer_of http buf = try_http_host buf
answer_of quic buf = (try_quic-Fine buf).0
answer_of ssh buf = try_ssh buf
answer_of bittorrent buf = try_bittorrent buf

try_type-answer_of : (t : SniffType) (buf : Bytes) → try_type t buf ≡ ok (answer_of t buf)
unfolding try_type
try_type-answer_of tls buf = (try_tls-Fine buf).1
try_type-answer_of http buf = refl
try_type-answer_of quic buf = (try_quic-Fine buf).1
try_type-answer_of ssh buf = refl
try_type-answer_of bittorrent buf = refl

-- The answer of the first sniffer that has one.
unfoldable pub first_answer : List SniffType → Bytes → Option SniffResult
first_answer [] buf = none
first_answer (t ∷ types) buf =
    let later = first_answer types buf in elim (answer_of t buf) [ none ↦ later | some r ↦ some r ]

try_types-first :
    (types : List SniffType) (buf : Bytes) → try_types types buf ≡ ok (first_answer types buf)
unfolding try_types first_answer
try_types-first [] buf = refl
try_types-first (t ∷ types) buf =
    ground (arith, try_type-answer_of t buf, try_types-first types buf)

-- `sniff` takes nothing from the stream and never panics: for whatever the read gave, all of its
-- bytes go back in front, and the answer is that of the first sniffer in the rule's list that has one, or
-- in the list of TLS, HTTP, QUIC, SSH and BitTorrent if the rule has none.
pub sniff-first :
    (types : List SniffType) (buf : Bytes)
    → 0 < length buf
    → sniff types (some buf)
      ≡ ok (
        buf,
        first_answer
            (if is_empty types then tls ∷ http ∷ quic ∷ ssh ∷ bittorrent ∷ [] else types)
            buf,
      )
unfolding sniff effective_types defaults
sniff-first types [] h = absurd (omega arith)
sniff-first types (b ∷ buf) h = rw try_types-first refl

-- Asking again gives the same answer.
same :
    (again : Bool) (o : Option SniffResult) (later : Read (Option SniffResult))
    → later ≡ ok (if again then o else none)
    → elim o as (λ _. Read (Option SniffResult)) [ some r ↦ ok (some r) | none ↦ later ] ≡ ok o
same again (some r) later h = refl
same true none later h = h
same false none later h = h

try_quic_types-any :
    (types : List SniffType) (buf : Bytes)
    → try_quic_types types buf ≡ ok (if any is_quic types then answer_of quic buf else none)
unfolding try_quic_types try_type
try_quic_types-any [] buf = refl
try_quic_types-any (quic ∷ types) buf = rw ((try_quic-Fine buf).1) (
    same (any is_quic types) (answer_of quic buf) (try_quic_types types buf)
      (try_quic_types-any types buf))
try_quic_types-any (tls ∷ types) buf = try_quic_types-any types buf
try_quic_types-any (http ∷ types) buf = try_quic_types-any types buf
try_quic_types-any (ssh ∷ types) buf = try_quic_types-any types buf
try_quic_types-any (bittorrent ∷ types) buf = try_quic_types-any types buf

-- `sniff_packet` asks the QUIC sniffer alone, if the rule's list has it or is empty: repeated
-- entries and the other types change nothing.
sniff_packet-any :
    (buf : Bytes) (types : List SniffType)
    → sniff_packet buf types
      ≡ ok (if is_empty types || any is_quic types then answer_of quic buf else none)
unfolding sniff_packet effective_types defaults
sniff_packet-any buf [] = try_quic_types-any defaults buf
sniff_packet-any buf (t ∷ types) = try_quic_types-any (t ∷ types) buf
