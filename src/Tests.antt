-- ===== src/Tests.antt =====
-- Concrete runs of the modelled functions, and the theorems at concrete inputs.
mod Data
mod Hashes
mod Caches
mod Lookups
mod Resolvers
mod Validators
mod AllServers
