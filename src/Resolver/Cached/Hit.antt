-- ===== src/Resolver/Cached/Hit.antt =====
-- When a cached lookup is answered by the cache, or refused, without the network.
use zdns.Prelude.{
  ℕ, ◌≡◌, refl, Bool, true, false, Option, none, some, List, ◌∷◌, arith, if◌then◌else◌, Text,
}
use zdns.Records.{Question, TraceStep}
use zdns.Records.NameServers.{NameServer, is_valid_name_server, show_name_server}
use zdns.Cache.Build.{CachedResult, nothing_cached}
use zdns.Cache.Valid.{key_of, IsValid, holds}
use zdns.Cache.Read.{IsFresh, stored}
use zdns.Cache.Hits.{get_cached_results_hit}
use zdns.Resolver.{Config, Resolver, Network, success, is_pending, delete_pending}
use zdns.Resolver.Cached.{cached_protocol, use_cached, ask_cache, lookup_pending, cached_lookup}

module _ {W C M : Type 0} (net : Network W C M) (cfg : Config) (r : Resolver W) (ctx : C)
    (q : Question) (ns : NameServer) (layer : Text) (iterate by_ns cna : Bool)
    (t : List TraceStep) where
  -- the name server that the cache is asked for, the time and the world of that
  abbrev asked : Option NameServer
  asked = if by_ns then some ns else none

  abbrev clock : W × ℕ
  clock = net.now (net.with_timeout r.world ctx cfg.network_timeout).0

  -- An entry of the question that is whole and fresh, with a record, answers the lookup at a valid name
  -- server of a question that is not pending, on a valid cache. The world has only been asked for a
  -- deadline and the time: nothing was sent.
  pub cached_lookup_hit :
      (e : CachedResult)
      → is_pending r.pending_queries q ≡ false
      → is_valid_name_server ns ≡ true
      → IsValid net.hash r.cache
      → holds net.hash r.cache
          (key_of q (show_name_server net.ip_string (if by_ns then some ns else none)) false)
        ≡ some e
      → IsFresh (net.now (net.with_timeout r.world ctx cfg.network_timeout).0).1 e
      → nothing_cached e ≡ false
      → (r' : Resolver W) × (cached_lookup net cfg r ctx q ns layer iterate by_ns cna t
          ≡ some (r', success (record (stored e) { protocol = cached_protocol cfg }) true t))
        × (r'.world ≡ (net.now (net.with_timeout r.world ctx cfg.network_timeout).0).0)
        × IsValid net.hash r'.cache
  unfolding cached_lookup lookup_pending ask_cache use_cached
  cached_lookup_hit e p b v held fresh full =
      let (c, hit, v', _) =
        get_cached_results_hit net.ip_string net.hash clock.1 r.cache q asked v e held fresh full in
      (
        record r {
          world = clock.0;
          cache = c;
          pending_queries = delete_pending (q ∷ r.pending_queries) q;
        },
        ground (arith, hit),
        refl,
        v',
      )
