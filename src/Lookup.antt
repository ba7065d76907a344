-- ===== src/Lookup.antt =====
-- src/zdns/lookup.go, alookup.go and the helpers in util.go: how a lookup proceeds.
pub mod Glue
pub mod Chains
pub mod Servers
