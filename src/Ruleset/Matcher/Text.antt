-- ===== src/Ruleset/Matcher/Text.antt =====
-- `RuleSet::from_text` of src/ruleset/matcher.rs.
use model_lib.Prelude.{Bytes, Result, ◌>>=◌}
use model_lib.Ruleset.Error.{RuleSetError}
use model_lib.Ruleset.Fst.{FstCrate}
use model_lib.Ruleset.Loader.{from_bytes}
use model_lib.Ruleset.Compiler.FromText
use model_lib.Ruleset.Compiler.Encode.{serialize}
use model_lib.Ruleset.Matcher.Engine.{RegexCrate, RuleSet, from_loaded}

-- Compiled, written, read back and indexed.
unfoldable pub from_text :
    (fst : FstCrate) (regex : RegexCrate) → Bytes → Result RuleSetError (RuleSet fst regex)
from_text fst regex src = do
  compiled ← FromText.from_text (regex.regex_ok) src
  buf ← serialize fst compiled
  loaded ← from_bytes buf
  from_loaded fst regex loaded
