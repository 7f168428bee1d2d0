-- ===== src/Sniff/Http/Lines.antt =====
-- `try_http_host` of src/app/sniff.rs on a request, by its lines.
use model_lib.Prelude.{
  ◌≡◌, Bytes, false, Option, none, some, List, [], ◌∷◌, ◌++◌, is_empty, All, ◌==◌,
}
use model_lib.Std.Reads.{starts_with}
use model_lib.Std.Text.{trim, to_ascii_lowercase}
use model_lib.Sniff.Outcome.{SniffResult}
use model_lib.Sniff.Http.{cr, lf, host_mark, http_name}

-- Lines, each with its line break behind it, and a body.
unfoldable pub request_bytes : List Bytes → Bytes → Bytes
request_bytes [] body = body
request_bytes (line ∷ lines) body = line ++ (cr ∷ lf ∷ request_bytes lines body)

abbrev pub HasNoCr : Bytes → Type 0
HasNoCr = All (λ b. (b == cr) ≡ false)

abbrev pub HasNoColon : Bytes → Type 0
HasNoColon = All (λ b. (b == b':') ≡ false)

-- Nothing, or a colon and what is behind it.
abbrev pub IsPort : Bytes → Type 0
IsPort [] = Unit
IsPort (b ∷ s) = b ≡ b':'

-- The host that header lines name. A host line is "host:" in any case and a value: blanks around
-- a domain, which has no colon, and perhaps a port. Lines that are none are passed over, and so is a
-- host line without a domain; the first other line decides.
pub data Names : List Bytes → Option Bytes → Type 0 where
  nothing : Names [] none
  other :
      (line : Bytes) (lines : List Bytes) (host : Option Bytes)
      → starts_with host_mark (to_ascii_lowercase line) ≡ false
      → Names lines host
      → Names (line ∷ lines) host
  blank :
      (field value port : Bytes) (lines : List Bytes) (host : Option Bytes)
      → to_ascii_lowercase field ≡ host_mark
      → trim (to_ascii_lowercase value) ≡ port
      → IsPort port
      → Names lines host
      → Names ((field ++ value) ∷ lines) host
  named :
      (field value domain port : Bytes) (lines : List Bytes)
      → to_ascii_lowercase field ≡ host_mark
      → trim (to_ascii_lowercase value) ≡ domain ++ port
      → HasNoColon domain
      → is_empty domain ≡ false
      → IsPort port
      → Names ((field ++ value) ∷ lines) (some domain)

abbrev pub http_result : Option Bytes → Option SniffResult
http_result none = none
http_result (some domain) = some (record { domain = some domain; protocol = http_name })
