-- ===== src/AllNameServers/External.antt =====
-- `LookupAllNameserversExternal` of src/zdns/lookup.go. `none` is a panic.
use zdns.Prelude.{not, ◌&&◌, ◌||◌, Option, none, some, List, [], ◌∷◌, ◌++◌, ◌>>=◌, if◌then◌else◌}
use zdns.Records.{Question, Status, SingleQueryResult, TraceStep, safe_status}
use zdns.Records.NameServers.{NameServer}
use zdns.Cache.Build.{is_nil}
use zdns.Resolver.{is_error, Config, Resolver, LookupError, Network}
use zdns.Resolver.External.{Lookups, external_lookup}
use zdns.AllNameServers.{AllReply}

module _ {W C M : Type 0} (net : Network W C M) (cfg : Config) (lookups : Lookups W C) where
  module _ (ctx : C) (q : Question) where
    -- the loop over the external name servers
    unfoldable pub query_external :
        Resolver W
        → List NameServer
        → List SingleQueryResult
        → List TraceStep
        → Option (Resolver W × AllReply (List SingleQueryResult))
    unfolding external_lookup safe_status
    query_external r [] retv trace =
        some (r, record { result = retv; trace = trace; status = Status.no_error; error = none })
    query_external r (ns ∷ servers) retv trace =
        let (w, expired) = net.has_expired r.world ctx in
        let r0 : Resolver W = record r { world = w } in
        if expired
        then some (
          r0,
          record {
            result = retv;
            trace = trace;
            status = Status.timeout;
            error = some LookupError.context_expired;
          },
        )
        else (do
          (r1, reply) ← external_lookup net cfg lookups r0 ctx q (some ns)
          (let trace' = trace ++ reply.trace in
              if is_error reply.error || not (safe_status reply.status)
              then query_external r1 servers retv trace'
              else elim reply.result [
                | none ↦ none
                | some res ↦ query_external r1 servers (retv ++ res ∷ []) trace'
              ]))

  unfoldable pub lookup_all_nameservers_external :
      Resolver W
      → Question
      → List NameServer
      → Option (Resolver W × AllReply (List SingleQueryResult))
  unfolding query_external
  lookup_all_nameservers_external r q name_servers =
      let (w, ctx) = net.with_timeout r.world net.background cfg.timeout in
      let r0 : Resolver W = record r { world = w } in
      if is_nil name_servers && is_nil cfg.external_name_servers
      then some (
        r0,
        record {
          result = [];
          trace = [];
          status = Status.illegal_input;
          error = some LookupError.no_external_name_servers;
        },
      )
      else query_external ctx q r0
          (if is_nil name_servers then cfg.external_name_servers else name_servers) [] []
