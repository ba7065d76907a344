-- ===== src/Lib.antt =====
-- ZDNS, a fast DNS lookup library and tool in Go: its resolver and its caches.
--
-- A lookup goes through `followingLookup`, `iterativeLookup` or `cyclingLookup` to `cachedLookup`, which
-- asks the cache of answers, then the network, and stores what it gets. The cache of answers stands on
-- a sharded LRU cache, and that on LRU caches. Which records may be stored is decided on names.
--
-- The modules, with the code that each is about:
--   CacheHash: src/internal/cachehash/cachehash.go. A record with the Go map as a function from keys
--     to addresses and the linked list as a list of elements with addresses. A dangling address is a
--     panic, `none`. Each method is a function of the same name.
--   ShardedCacheHash: src/internal/cachehash/shardedcachehash.go, a list of such caches.
--   Names: the functions on domain names of src/zdns/util.go. Names are lists of bytes, and read as
--     lists of labels in Names/Labels.
--   Records: src/zdns/qa.go, types.go, conf.go, answers.go and the data of dnssec_types.go.
--   Cache: src/zdns/cache.go and cache_stats.go, methods under their names in snake case. Cache/Build
--     has the parts without state. Times are nanoseconds.
--   Dnssec: `populateStatus` of src/zdns/dnssec_types.go.
--   Lookup: the helpers of src/zdns/lookup.go, alookup.go and util.go that read responses, and in
--     Lookup/Servers `filterNameServersForUniqueNames`.
--   Resolver: the state of src/zdns/resolver.go and the lookups of src/zdns/lookup.go. Resolver/Wire and
--     Resolver/Cached are `cachedLookup`, Resolver/Cycle is `cyclingLookup`, Resolver/Authorities are
--     `iterateOnAuthorities` and `extractAuthority`, Resolver/Iterate is `iterativeLookup`,
--     Resolver/Following is `followingLookup` with its callers `lookup` and `doDstServersLookup`, and
--     Resolver/External are `ExternalLookup` and `IterativeLookup` of resolver.go. The record `Lookups`
--     is the interface of the lookups of names (`Lookuper`) that the following modules are made of.
--     Resolver/Settled has the resolvers between lookups, and what is relied on of the network. A name
--     that goes to the wire passes `dotName`, which may end the program: `none`, as for a panic.
--   AllNameServers: the lookups at all name servers of src/zdns/lookup.go. AllNameServers/External is
--     `LookupAllNameserversExternal`, AllNameServers/Iterative `LookupAllNameserversIterative`, with its
--     queries in AllNameServers/Layer and the name servers of the next layer in AllNameServers/Extract.
--     AllNameServers/Reliable states what these and the following queries rely on of the lookups.
--   IpLookup: `DoTargetedLookup` of src/zdns/alookup.go.
--   NsLookup: `DoNSLookup` of src/zdns/nslookup.go.
--   Validator: src/zdns/dnssec.go and the validator of dnssec_types.go. Validator/Keys are the keys of a
--     zone, Validator/Sections the signatures of RR sets and Validator/Message is `validate`. The
--     validator is part of the world of a resolver, and the lookup that it makes is an argument.
--   Prelude: names that all share, lists over native numbers, and the functions of Go's `strings`.
--   Tests: concrete data, and the theorems at it.
--
-- Bounds and fuel: `cyclingLookup` runs on one round more than there are retries, `isLookupComplete`
-- on the bound that the code itself counts, `iterativeLookup` on two levels more than the maximal depth,
-- and `followingLookup` for that depth, as in the code. The descent of `LookupAllNameserversIterative`
-- has three rounds more than the name has bytes, as the layers grow. The counters of the statistics
-- wrap at 64 bits. The expiry of a record, at most 2^32 seconds from a time of now, stays far below the
-- range of Go's `time.Time` and is not wrapped.
--
-- Parameters: the hash of the shards, `net.IP.String` and `net.ParseIP`, the table of record types,
-- the order of a range over a map, and, in the record `Network`, the clock, contexts, random orders,
-- the blacklist, the connections, the wire lookups and the validation of DNSSEC messages. In the
-- record `DnsLibrary`: key tags, digests, the check of a signature and its period, the conversions
-- between records of the DNS library and of the results, and the orders of the ranges over maps.
--
-- Not modelled: locks and goroutines, logging, sockets and wire formats, the parsing of answers,
-- the resolver with the modelled validator as that of its network, the configuration of a resolver, the
-- lookup modules and the command line. The fields of a record type beyond its base answer are one text
-- that no function reads.
pub mod AllNameServers
pub mod IpLookup
pub mod NsLookup
pub mod Prelude
pub mod CacheHash
pub mod ShardedCacheHash
pub mod Names
pub mod Records
pub mod Cache
pub mod Dnssec
pub mod Lookup
pub mod Resolver
pub mod Validator
pub mod Tests
