-- ===== src/AllNameServers/Asked.antt =====
-- What `LookupAllNameserversExternal` of src/zdns/lookup.go returns.
use zdns.Prelude.{
  ◌≡◌, Bool, true, false, not, ◌||◌, Option, none, some, List, [], ◌∷◌, ◌++◌, if◌then◌else◌,
}
use zdns.Records.{Question, Status, SingleQueryResult, safe_status}
use zdns.Records.NameServers.{NameServer}
use zdns.Cache.Build.{is_nil}
use zdns.Resolver.{is_error, Config, Resolver, LookupError, Reply, Network}
use zdns.Resolver.External.{Lookups, external_lookup}
use zdns.AllNameServers.{AllReply}

abbrev pub has_failed : Reply → Bool
has_failed reply = is_error reply.error || not (safe_status reply.status)

-- the servers that are asked, and whether the time was over before
abbrev pub external_servers : Config → List NameServer → List NameServer
external_servers cfg servers = if is_nil servers then cfg.external_name_servers else servers

module _ {W C M : Type 0} (net : Network W C M) (cfg : Config) (lookups : Lookups W C) where
  module _ (ctx : C) (q : Question) where
    -- the reply of an external lookup of the question at the server
    pub record IsReply (ns : NameServer) (reply : Reply) : Type 0 where
      before : Resolver W
      after : Resolver W
      looked_up : external_lookup net cfg lookups before ctx q (some ns) ≡ some (after, reply)

    -- Each server was asked, in the order of the list, unless the time was over, and the results are
    -- those of the lookups that did not fail.
    pub data Asked (reply : AllReply (List SingleQueryResult))
        : List NameServer → List SingleQueryResult → Type 0 where
      all : reply.status ≡ Status.no_error → reply.error ≡ none → Asked reply [] []
      stopped :
          {servers : List NameServer}
          → reply.status ≡ Status.timeout
          → reply.error ≡ some LookupError.context_expired
          → Asked reply servers []
      failed :
          {ns : NameServer} {servers : List NameServer} {results : List SingleQueryResult}
          (got : Reply)
          → IsReply ns got
          → has_failed got ≡ true
          → Asked reply servers results
          → Asked reply (ns ∷ servers) results
      succeeded :
          {ns : NameServer} {servers : List NameServer} {res : SingleQueryResult}
          {results : List SingleQueryResult} (got : Reply)
          → IsReply ns got
          → has_failed got ≡ false
          → got.result ≡ some res
          → Asked reply servers results
          → Asked reply (ns ∷ servers) (res ∷ results)

    -- what is returned behind the results that are there already
    abbrev Gathers :
        List NameServer
        → List SingleQueryResult
        → Option (Resolver W × AllReply (List SingleQueryResult))
        → Type 0
    Gathers servers before o =
        (r' : Resolver W) × (reply : AllReply (List SingleQueryResult)) × (results : List
          SingleQueryResult)
        × (o ≡ some (r', reply))
        × (reply.result ≡ before ++ results)
        × Asked reply servers results
