-- ===== src/Router.antt =====
-- src/router/mod.rs: the rules that decide where a connection goes.
pub mod Rule
pub mod Route
pub mod Indices
pub mod Conditions
pub mod Compiled
