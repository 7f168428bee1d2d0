-- ===== src/Sniff/Http.antt =====
-- `try_http_host` of src/app/sniff.rs.
pub mod Lines
use model_lib.Prelude.{
  ℕ, ◌+◌, ◌/◌, Bytes, is_utf8, Bool, true, false, ◌&&◌, Option, none, some, List, [], ◌∷◌, length,
  is_empty, take, drop, ◌==◌, if◌then◌else◌,
}
use model_lib.Std.Text.{trim, to_ascii_lowercase}
use model_lib.Sniff.Outcome.{SniffResult}
use model_lib.Std.Reads.{starts_with}

abbrev cr : ℕ
cr = 13

abbrev lf : ℕ
lf = 10

abbrev pub crlf : Bytes
crlf = cr ∷ (lf ∷ [])

-- " HTTP/"
abbrev pub http_mark : Bytes
http_mark = b' ' ∷ (b'H' ∷ (b'T' ∷ (b'T' ∷ (b'P' ∷ (b'/' ∷ [])))))

abbrev pub host_mark : Bytes
host_mark = b'h' ∷ (b'o' ∷ (b's' ∷ (b't' ∷ (b':' ∷ []))))

abbrev pub http_name : Bytes
http_name = b'h' ∷ (b't' ∷ (b't' ∷ (b'p' ∷ [])))

-- `str::find`
unfoldable pub find : Bytes → Bytes → Option ℕ
find pattern [] = if is_empty pattern then some 0 else none
find pattern (b ∷ s) =
    let later = find pattern s in
    if starts_with pattern (b ∷ s)
    then some 0
    else elim later [ none ↦ none | some i ↦ some (i + 1) ]

-- `str::contains`
unfoldable pub contains : Bytes → Bytes → Bool
contains pattern s = elim (find pattern s) [ none ↦ false | some i ↦ true ]

-- `strip_prefix`
unfoldable pub strip_prefix : Bytes → Bytes → Option Bytes
strip_prefix prefix s = if starts_with prefix s then some (drop (length prefix) s) else none

unfoldable pub push_front : ℕ → List Bytes → List Bytes
push_front b [] = (b ∷ []) ∷ []
push_front b (line ∷ lines) = (b ∷ line) ∷ lines

-- `split("\r\n")`
unfoldable pub split_crlf : Bytes → List Bytes
split_crlf [] = [] ∷ []
split_crlf (a ∷ []) = (a ∷ []) ∷ []
split_crlf (a ∷ (b ∷ s)) = elim (a == cr && b == lf) [
  | true ↦ [] ∷ split_crlf s
  | false ↦ push_front a (split_crlf (b ∷ s))
]

-- `split(':').next()`
unfoldable pub before_colon : Bytes → Bytes
before_colon [] = []
before_colon (b ∷ s) = let rest = before_colon s in if b == b':' then [] else b ∷ rest

-- The domain of a header line, if that is the host's and names one.
unfoldable pub host_domain : Bytes → Option Bytes
host_domain line = elim (strip_prefix host_mark (to_ascii_lowercase line)) [
  | none ↦ none
  | some rest ↦
      let domain = before_colon (trim rest) in if is_empty domain then none else some domain
]

-- The loop over the header lines.
unfoldable pub host_of : List Bytes → Option SniffResult
host_of [] = none
host_of (line ∷ lines) = elim (is_empty line) [
  | true ↦ none
  | false ↦ elim (host_domain line) [
    | some domain ↦ some (record { domain = some domain; protocol = http_name })
    | none ↦ host_of lines
  ]
]

unfoldable pub try_http_host : Bytes → Option SniffResult
try_http_host buf = elim (is_utf8 buf) [
  | false ↦ none
  | true ↦ elim (find crlf buf) [
    | none ↦ none
    | some first_line_end ↦ elim (contains http_mark (take first_line_end buf)) [
      | false ↦ none
      | true ↦ host_of (drop 1 (split_crlf buf))
    ]
  ]
]
