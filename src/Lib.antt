-- ===== src/Lib.antt =====
-- A model of Reflex, a rule-based proxy, and of the rule sets that its routing rests on.
--
-- A rule set is compiled from text to a binary file, loaded from it, and turned into indexes
-- which are asked about a domain, an address or a port.
--
-- Ruleset/Format and Ruleset/Error: src/ruleset/format.rs and error.rs, the constants, section
--   types and errors. Formatted messages are constructors, one for each format string.
-- Ruleset/Loader: src/ruleset/loader.rs. The reader is the list of bytes not yet read, so
--   `from_bytes` is `from_reader` on a slice; its section loop runs once for each announced
--   section. Loops over bytes walk the list, with a count of the bytes to pass over.
-- Ruleset/Compiler: `CompiledRuleSet` of src/ruleset/compiler.rs; Compiler/Encode: `serialize`,
--   the encoders and the FST builders. Ruleset/Keys: the FST keys.
-- Ruleset/Fst: the `fst` crate, a record of operations that definitions take as an argument.
-- Ruleset/Trie: src/ruleset/trie.rs, an arena of nodes with edges as indices; `as u32` is
--   written out. The maps from labels to indices are association lists.
-- Ruleset/Matcher: src/ruleset/matcher.rs. Ports: the bitset. Ranges: merged address ranges with
--   binary search by their partition point; addresses are numbers. Domains: FST and legacy
--   matchers. Engine: `RuleSet::from_loaded` and the queries.
--
-- The folders below these files hold the proofs: Ruleset/Codec for the file format, Trie/ for
-- the trie, Matcher/Ports, Matcher/Ranges, Matcher/Domains and Matcher/Engine for the
-- indexes. Tests/ runs the code and applies the theorems at concrete inputs, with concrete
-- stand-ins for the crates.
--
-- Ruleset/Compiler also has the front ends: Parse (single values), FromText (`from_text`) and
--   SingBox (the sing-box rules behind serde_json, whose results are data). Bounds, Invariant and
--   Imported: proofs about their results. Matcher/Text: `RuleSet::from_text`, with proofs in
--   Matcher/EndToEnd.
-- Config: the route section of src/config/route.rs. Router: src/router/mod.rs; Rule: `compile`,
--   Route: `matches`, `route`, the index lists and `from_config` behind the loop that loads the
--   rule sets; Indices, Conditions and Compiled: proofs. `SniffType` is from
--   src/app/sniff.rs, `Target` from src/inbound/mod.rs. A question to the router is the record of what a connection or a
--   packet passes: the inbound tag, the network, the target and the sniffed protocol.
-- Config/Validate: `Config::validate` of src/config/mod.rs, on the fields that it reads. Provider,
--   Outbound and Inbound: src/config/provider.rs, outbound.rs and inbound.rs, with the checks of
--   one provider and one inbound; Groups: the checks of the outbounds; Cycles: the search for
--   cycles, whose depth is bounded by the number of groups plus one. The order of a hash map's
--   keys is an argument. Cycles/Search, Groups/Tags, Groups/Accepted,
--   Validate/Loops and Validate/Resolved: proofs.
-- Dns: src/dns/cache.rs. Keys: its keys and those of the cache file's table; Lru: the `lru` crate,
--   a record of operations with laws; Cache: `DnsCache`, with the handles on the saved answers from
--   src/experimental/cache_file.rs; Cache/Inflight: the queries in flight, whose runs by any
--   tasks are an indexed data type; Cache/Calls: sequences of calls. A call that panics has no
--   result. Cache/Answers, Cache/History and Inflight/Leaders: proofs.
-- Sniff: src/app/sniff.rs. Tls, Http, Quic (with Varint, Initial and Frames), Signatures and
--   Packet (`sniff`, `sniff_packet`); Crypto: SHA-256, HKDF, AES-128 and GCM as written out there.
--   Their loops run on the length of the buffer plus one as fuel. Tls/Hello describes a
--   ClientHello by its parts, Quic/Varint/RoundTrip the numbers of RFC 9000.
-- Outbound/Proto: src/outbound/proto.rs, the frames of VLESS and Hysteria2, with VLESS's
--   UDP frames in Proto/Frames as a stream.
-- Std/Reads: indexing of slices, where a read out of bounds is a failure as it is a panic in Rust,
--   and Std/Rest: such reads by what lies behind a position.
-- Std: what the source uses of Rust's strings, number parsing and address parsing. The Unicode
--   `str::to_lowercase` is an argument of the router's definitions.
--
-- Numbers are natural numbers; what the source wraps is wrapped with `% 2 ^ w`, and `usize` has
-- 64 bits, which no length reaches. Strings are lists of bytes. Loops on fuel that may run out
-- give `out_of_fuel`, which is a failure like a panic; the decimal printer of a `u16` prints five digits
-- at most, and `pad_zeros` of SHA-256 pushes 64 zeros at most, where 63 are the most that are due.
-- `Instant + Duration` beyond the platform's last instant is a panic; memory is never exhausted.
-- The clocks of the DNS cache are read into arguments, and locks are taken one call at a time.
--
-- Not modelled: sockets, TLS sessions and the encrypted parts of the proxy protocols, DNS upstreams,
-- the parser of the configuration, loading rule sets from files
-- and the network, the HTTP API.
pub mod Config
pub mod Dns
pub mod Outbound
pub mod Prelude
pub mod Router
pub mod Sniff
pub mod Ruleset
pub mod Std
pub mod Tests
