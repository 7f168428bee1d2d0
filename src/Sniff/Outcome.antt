-- ===== src/Sniff/Outcome.antt =====
-- `SniffResult` of src/app/sniff.rs.
use model_lib.Prelude.{Bytes, Option}

pub record SniffResult : Type 0 where
  pub domain : Option Bytes
  pub protocol : Bytes
