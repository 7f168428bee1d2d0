-- ===== src/Sniff/Tls/Hello.antt =====
-- A ClientHello in a TLS record as RFC 5246, RFC 6066 and RFC 7301 lay it out, which is what
-- `try_tls` of src/app/sniff.rs looks for, and what it should find there.
use model_lib.Prelude.{
  ℕ, ◌+◌, ◌/◌, ◌%◌, ◌≢◌, Bytes, bytes_eq, Bool, ◌&&◌, ◌||◌, Option, List, [], ◌∷◌, ◌++◌, length,
  if◌then◌else◌,
}
use model_lib.Sniff.Tls.{keep_name, h2_name, is_some}

-- A number on two bytes.
abbrev pub be16 : ℕ → Bytes
be16 n = (n / 256) ∷ (n % 256) ∷ []

pub data Extension : Type 0 where
  server : Bytes → Extension
  protocols : List Bytes → Extension
  other : ℕ → Bytes → Extension

unfoldable pub protocol_bytes : List Bytes → Bytes
protocol_bytes [] = []
protocol_bytes (p ∷ ps) = length p ∷ (p ++ protocol_bytes ps)

abbrev pub kind_of : Extension → ℕ
kind_of (server name) = 0x0000
kind_of (protocols ps) = 0x0010
kind_of (other kind body) = kind

abbrev pub body_of : Extension → Bytes
body_of (server name) = be16 (length name + 3) ++ (0 ∷ (be16 (length name) ++ name))
body_of (protocols ps) = be16 (length (protocol_bytes ps)) ++ protocol_bytes ps
body_of (other kind body) = body

unfoldable pub extension_bytes : List Extension → Bytes
extension_bytes [] = []
extension_bytes (e ∷ es) =
    be16 (kind_of e) ++ (be16 (length (body_of e)) ++ (body_of e ++ extension_bytes es))

-- The other extensions are none of the two that are read.
abbrev pub IsOther : Extension → Type 0
IsOther (server name) = Unit
IsOther (protocols ps) = Unit
IsOther (other kind body) = (kind ≢ 0x0000) × (kind ≢ 0x0010)

pub record Hello : Type 0 where
  -- the minor version, the record's length, and behind the handshake's type its length, the
  -- version and the random bytes
  pub minor : ℕ
  pub record_length : ℕ
  pub opening : Bytes
  pub session_id : Bytes
  pub cipher_suites : Bytes
  pub compression : Bytes
  pub extensions : List Extension
  pub behind : Bytes

unfoldable pub hello_bytes : Hello → Bytes
hello_bytes h =
    (0x16 ∷ 0x03 ∷ h.minor ∷ (be16 h.record_length ++ (0x01 ∷ h.opening)))
    ++ (length h.session_id
        ∷ (h.session_id
            ++ (be16 (length h.cipher_suites)
                ++ (h.cipher_suites
                    ++ (length h.compression
                        ∷ (h.compression
                            ++ (be16 (length (extension_bytes h.extensions))
                                ++ (extension_bytes h.extensions ++ h.behind))))))))

-- Whether a protocol is "h2".
abbrev pub has_h2 : List Bytes → Bool → Bool
has_h2 [] h = h
has_h2 (p ∷ ps) h = has_h2 ps (bytes_eq p h2_name || h)

-- One extension adds a name, which replaces the one before, or the sight of "h2".
abbrev pub learn : Extension → Option Bytes → Bool → Option Bytes × Bool
learn (server name) sni h = (keep_name name sni, h)
learn (protocols ps) sni h = (sni, has_h2 ps h)
learn (other kind body) sni h = (sni, h)

-- In order, until both are known: what stands behind is not read.
unfoldable pub learn_all : List Extension → Option Bytes → Bool → Option Bytes × Bool
learn_all [] sni h = (sni, h)
learn_all (e ∷ es) sni h =
    let known = learn e sni h in
    let later = learn_all es known.0 known.1 in if is_some known.0 && known.1 then known else later
