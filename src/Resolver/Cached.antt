-- ===== src/Resolver/Cached.antt =====
-- `cachedLookup` of src/zdns/lookup.go: a lookup that asks the cache first, for the question and then
-- for the next authority, and caches what comes from the wire. `none` is a panic.
pub mod Frame
pub mod Hit
pub mod Total
use zdns.Prelude.{
  ℕ, Bool, true, false, not, ◌&&◌, ◌||◌, Option, none, some, List, [], ◌∷◌, ◌==◌, ◌>>=◌,
  if◌then◌else◌, Text, codes, text_eq, to_lower,
}
use zdns.Names.{next_authority}
use zdns.Records.{
  Question, AnyAnswer, Status, SingleQueryResult, empty_result, DnssecStatus, DnssecResult,
  TraceStep, safe_status, type_ds,
}
use zdns.Records.NameServers.{NameServer, TransportMode, is_valid_name_server}
use zdns.Cache.{
  Cache, get_cached_results, get_cached_authority, safe_add_cached_answer,
  safe_add_cached_authority,
}
use zdns.Cache.Build.{is_nil, is_bogus, make_dnssec_result}
use zdns.Resolver.Wire.{Call, go_to_wire}
use zdns.Resolver.{
  Config, Resolver, LookupError, Reply, ConnectionInfo, Protocol, WireReply, Network, failure,
  success, is_pending, delete_pending,
}

unfoldable pub is_tcp_only : TransportMode → Bool
is_tcp_only TransportMode.tcp_only = true
is_tcp_only _ = false

-- the protocol that a cached result is marked with
unfoldable pub cached_protocol : Config → Text
unfolding is_tcp_only
cached_protocol cfg =
    if cfg.dns_over_https
    then codes "DoH"
    else if cfg.dns_over_tls
    then codes "DoT"
    else if is_tcp_only cfg.transport_mode
    then codes "tcp"
    else codes "udp"

module _ {W C M : Type 0} (net : Network W C M) (cfg : Config) (call : Call C) where
  -- The cached authority is used if it has both additionals and authorities.
  unfoldable pub use_authority :
      Resolver W
      → Text
      → Text
      → List TraceStep
      → Option SingleQueryResult
      → Bool
      → Option (Resolver W × Reply)
  unfolding go_to_wire
  use_authority r layer auth_name trace cached false =
      go_to_wire net cfg call r layer auth_name trace
  use_authority r layer auth_name trace none true = none
  use_authority r layer auth_name trace (some res) true =
      if not (is_nil res.additionals) && not (is_nil res.authorities)
      then some (r, success res true trace)
      else go_to_wire net cfg call r layer auth_name trace

  unfoldable pub ask_authority :
      Resolver W → Text → Text → List TraceStep → Option (Resolver W × Reply)
  unfolding use_authority
  ask_authority r layer auth_name trace =
      let (w, now) = net.now r.world in
      do
        (c, cached, found) ← get_cached_authority net.ip_string net.hash now r.cache auth_name none
        use_authority (record r { world = w; cache = c }) layer auth_name trace cached found

  -- the search for the next authority, when the resolver iterates itself
  unfoldable pub find_authority : Resolver W → Text → List TraceStep → Option (Resolver W × Reply)
  unfolding ask_authority go_to_wire
  find_authority r given_layer trace =
      let name = to_lower call.q.name in
      let layer = to_lower given_layer in
      elim (next_authority name layer) [
        | none ↦ some (r, failure Status.auth_fail trace (some LookupError.next_authority_error))
        | some auth_name ↦
            if not (text_eq name layer)
              && not (text_eq auth_name layer)
              && not (call.q.type == type_ds)
            then (if is_nil auth_name
                then some (r, failure Status.auth_fail trace none)
                else ask_authority r layer auth_name trace)
            else go_to_wire net cfg call r layer auth_name trace
      ]

  unfoldable pub after_blacklist : Resolver W → Text → List TraceStep → Option (Resolver W × Reply)
  unfolding find_authority go_to_wire
  after_blacklist r layer trace =
      if call.request_iteration
      then go_to_wire net cfg call r layer [] trace
      else find_authority r layer trace

  -- the address of the name server, which is valid, so not nil
  abbrev address_text : Text
  address_text = elim call.name_server.ip [ none ↦ [] | some ip ↦ net.ip_string ip ]

  unfoldable pub after_cache : Resolver W → Text → List TraceStep → Option (Resolver W × Reply)
  unfolding after_blacklist
  after_cache r layer trace =
      if cfg.has_blacklist
      then elim (net.is_blacklisted address_text) [
        | none ↦ some (
          r,
          record {
            result = none;
            is_cached = false;
            status = Status.error;
            trace = trace;
            error = some LookupError.blacklist_check;
          },
        )
        | some true ↦ some (r, failure Status.blacklisted trace none)
        | some false ↦ after_blacklist r layer trace
      ]
      else after_blacklist r layer trace

  -- a hit is returned with the protocol of the resolver; a hit without a result would be a panic
  unfoldable pub use_cached :
      Resolver W
      → Text
      → List TraceStep
      → Option SingleQueryResult
      → Bool
      → Option (Resolver W × Reply)
  unfolding after_cache cached_protocol
  use_cached r layer trace cached false = after_cache r layer trace
  use_cached r layer trace none true = none
  use_cached r layer trace (some res) true =
      some (r, success (record res { protocol = cached_protocol cfg }) true trace)

  unfoldable pub ask_cache : Resolver W → Text → List TraceStep → Option (Resolver W × Reply)
  unfolding use_cached
  ask_cache r layer trace =
      let (w, now) = net.now r.world in
      do
        (c, cached, found) ←
            get_cached_results net.ip_string net.hash now r.cache call.q call.cache_name_server
        use_cached (record r { world = w; cache = c }) layer trace cached found

module _ {W C M : Type 0} (net : Network W C M) (cfg : Config) where
  -- what is done while the query is pending
  unfoldable pub lookup_pending :
      Resolver W
      → C
      → Question
      → NameServer
      → Text
      → Bool
      → Bool
      → Bool
      → List TraceStep
      → Option (Resolver W × Reply)
  unfolding ask_cache is_valid_name_server
  lookup_pending r ctx q ns layer request_iteration by_name_server non_authoritative trace =
      if not (is_valid_name_server ns)
      then some (r, failure Status.illegal_input trace (some LookupError.invalid_name_server))
      else let (w, lookup_ctx) = net.with_timeout r.world ctx cfg.network_timeout in
        ask_cache net cfg
          (record {
            q = q;
            name_server = ns;
            request_iteration = request_iteration;
            cache_name_server = if by_name_server then some ns else none;
            cache_non_authoritative = non_authoritative;
            lookup_ctx = lookup_ctx;
          })
          (record r { world = w }) layer trace

  -- The query is pending during the call, whichever way it returns.
  unfoldable pub cached_lookup :
      Resolver W
      → C
      → Question
      → NameServer
      → Text
      → Bool
      → Bool
      → Bool
      → List TraceStep
      → Option (Resolver W × Reply)
  unfolding lookup_pending
  cached_lookup r ctx q ns layer request_iteration by_name_server non_authoritative trace =
      if is_pending r.pending_queries q
      then some (r, failure Status.circular trace (some LookupError.circular_query))
      else do
        (r', reply) ←
            lookup_pending (record r { pending_queries = q ∷ r.pending_queries }) ctx q ns layer
              request_iteration by_name_server non_authoritative trace
        some (record r' { pending_queries = delete_pending r'.pending_queries q }, reply)
