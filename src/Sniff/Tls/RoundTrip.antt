-- ===== src/Sniff/Tls/RoundTrip.antt =====
-- `try_tls` of src/app/sniff.rs on a ClientHello.
use model_lib.Std.Rest.{Rest}
use model_lib.Sniff.Tls.Hello.{Hello}
