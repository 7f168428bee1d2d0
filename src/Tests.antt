-- ===== src/Tests.antt =====
-- The theorems applied at concrete inputs, and runs of the code on them.
mod Toys
mod Codec
mod Index
mod Router
mod EndToEnd
mod Import
mod Lru
mod Dns
mod Crypto
mod Sniff
mod Outbound
mod Config
mod Validate
