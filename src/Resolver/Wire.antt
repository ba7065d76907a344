-- ===== src/Resolver/Wire.antt =====
-- The part of `cachedLookup` of src/zdns/lookup.go that goes to the wire and caches what it gets.
pub mod Total
use zdns.Prelude.{
  Bool, true, false, not, ◌&&◌, ◌||◌, Option, none, some, List, ◌>>=◌, if◌then◌else◌, Text, text_eq,
  to_lower,
}
use zdns.Names.{dot_name}
use zdns.Records.{Question, Status, SingleQueryResult, DnssecResult, TraceStep, safe_status}
use zdns.Records.NameServers.{NameServer}
use zdns.Cache.{safe_add_cached_answer, safe_add_cached_authority}
use zdns.Cache.Build.{is_bogus, make_dnssec_result}
use zdns.Resolver.{
  Config, Resolver, LookupError, Reply, ConnectionInfo, Protocol, WireReply, Network, failure,
  success,
}

unfoldable pub is_truncated : Status → Bool
is_truncated Status.truncated = true
is_truncated _ = false

-- the arguments of a call that do not change in it
pub record Call (C : Type 0) : Type 0 where
  pub q : Question
  pub name_server : NameServer
  pub request_iteration : Bool
  pub cache_name_server : Option NameServer
  pub cache_non_authoritative : Bool
  pub lookup_ctx : C

module _ {W C M : Type 0} (net : Network W C M) (cfg : Config) (call : Call C) where
  -- the result goes to the cache as a referral or as an answer
  unfoldable pub store :
      Resolver W → Text → Text → SingleQueryResult → Option (Resolver W × SingleQueryResult)
  store r layer auth_name res =
      let (w, now) = net.now r.world in
      if not call.request_iteration
        && not (text_eq (to_lower call.q.name) layer)
        && not (text_eq auth_name layer)
        && not res.flags.authoritative
      then (do
        (c, res') ←
            safe_add_cached_authority net.ip_string net.hash now r.cache res call.cache_name_server
              layer
        some (record r { world = w; cache = c }, res'))
      else (do
        c ←
            safe_add_cached_answer net.ip_string net.hash now r.cache call.q res
              call.cache_name_server layer call.cache_non_authoritative
        some (record r { world = w; cache = c }, res))

  -- a result that was validated, or need not be
  unfoldable pub store_reply :
      Resolver W → Text → Text → SingleQueryResult → List TraceStep → Option (Resolver W × Reply)
  unfolding store
  store_reply r layer auth_name res trace = do
    (r', kept) ← store r layer auth_name res
    some (r', success kept false trace)

  unfoldable pub accept_validated :
      Resolver W
      → Text
      → Text
      → SingleQueryResult
      → DnssecResult
      → List TraceStep
      → Option (Resolver W × Reply)
  unfolding store_reply
  accept_validated r layer auth_name res validated trace =
      let res' : SingleQueryResult = record res { dnssec_result = some validated } in
      if not r.should_validate_dnssec || not (is_bogus (some validated))
      then store_reply r layer auth_name res' trace
      else some (r, success res' false trace)

  -- what is done with a result of the wire that has no error
  unfoldable pub accept_result :
      Resolver W
      → Text
      → Text
      → M
      → SingleQueryResult
      → List TraceStep
      → Option (Resolver W × Reply)
  unfolding store_reply accept_validated
  accept_result r layer auth_name raw res trace =
      if r.should_validate_dnssec
      then (do
        (r', validated, trace') ← net.validate r layer raw call.name_server trace
        accept_validated r' layer auth_name res validated trace')
      else store_reply r layer auth_name res trace

  -- Without an error of the wire: an answer is accepted; a reply of another status is marked as not
  -- validated, which panics if there is no result.
  unfoldable pub accept_reply :
      Resolver W → Text → Text → WireReply M → List TraceStep → Option (Resolver W × Reply)
  unfolding accept_result safe_status make_dnssec_result
  accept_reply r layer auth_name reply trace =
      let other : Option SingleQueryResult → Reply = λ res. record {
        result = res;
        is_cached = false;
        status = reply.status;
        trace = trace;
        error = none;
      } in
      elim reply.result [
        | some res ↦
            if safe_status reply.status
            then accept_result r layer auth_name reply.raw res trace
            else if r.should_validate_dnssec
            then some (r, other (some (record res { dnssec_result = some make_dnssec_result })))
            else some (r, other (some res))
        | none ↦ if r.should_validate_dnssec then none else some (r, other none)
      ]

  unfoldable pub finish_wire :
      Resolver W → Text → Text → List TraceStep → W × WireReply M → Option (Resolver W × Reply)
  unfolding accept_reply
  finish_wire r layer auth_name trace (w, reply) =
      let r' : Resolver W = record r { world = w } in
      if reply.failed
      then some (r', failure reply.status trace (some LookupError.lookup_failed))
      else accept_reply r' layer auth_name reply trace

  -- The wire lookup over one protocol, for the name with a dot at its end. `dotName` ends the program
  -- on a name that has one already.
  unfoldable pub wire_by : Protocol → W → Option (W × WireReply M)
  unfolding dot_name
  wire_by p w = do
    name ← dot_name call.q.name
    some (
        net.wire p w call.lookup_ctx (record call.q { name = name }) call.name_server
          call.request_iteration)

  -- a truncated reply over UDP is asked for again over TCP
  unfoldable pub wire_udp : ConnectionInfo → W → Option (W × WireReply M)
  unfolding is_truncated wire_by
  wire_udp info w = do
    (w', reply) ← wire_by Protocol.udp w
    if is_truncated reply.status && info.has_tcp then wire_by Protocol.tcp w' else some (w', reply)

  unfoldable pub go_to_wire :
      Resolver W → Text → Text → List TraceStep → Option (Resolver W × Reply)
  unfolding finish_wire wire_udp wire_by
  go_to_wire r layer auth_name trace =
      let (w, conn) = net.get_connection_info r.world call.name_server in
      let no_connection : Reply =
        failure Status.error trace (some LookupError.no_connection_info) in
      let finish : Option (W × WireReply M) → Option (Resolver W × Reply) =
        λ got. got >>= finish_wire r layer auth_name trace in
      elim conn [
        | none ↦ some (record r { world = w }, no_connection)
        | some info ↦
            if cfg.dns_over_https
            then finish (wire_by Protocol.doh w)
            else if cfg.dns_over_tls
            then finish (wire_by Protocol.dot w)
            else if info.has_udp
            then finish (wire_udp info w)
            else if info.has_tcp
            then finish (wire_by Protocol.tcp w)
            else some (record r { world = w }, no_connection)
      ]
