-- ===== src/NsLookup/Servers.antt =====
-- What `DoNSLookup` of src/zdns/nslookup.go returns.
use zdns.Prelude.{◌≡◌, ◌⊎◌, Bool, true, not, ◌||◌, none, some, List, []}
use zdns.Records.{Question, Status, SingleQueryResult, safe_status}
use zdns.Records.NameServers.{NameServer}
use zdns.Resolver.{is_error, Config, Resolver, Reply, Network}
use zdns.Resolver.External.{Lookups}
use zdns.AllNameServers.Reliable.{IsReliable}
use zdns.NsLookup.{NsRecord, NsReply}
use zdns.NsLookup.Made.{AreServers}

-- the test on the reply to the question for the name servers
abbrev pub has_failed : Reply → Bool
has_failed reply = not (safe_status reply.status) || is_error reply.error

module _ {W C M : Type 0} (net : Network W C M) (cfg : Config) (lookups : Lookups W C)
    {Usable : Resolver W → Type 0} {Asks : Question → Type 0}
    (reliable : IsReliable cfg Usable Asks lookups) (ns : NameServer)
    (lookup_a lookup_aaaa : Bool) where
  -- what is returned for the reply to the question for the name servers
  abbrev pub Reports : Reply → NsReply → Type 0
  Reports reply got =
      ((has_failed reply ≡ true)
        × (got.servers ≡ some [])
        × (got.status ≡ reply.status)
        × (got.error ≡ reply.error))
      ⊎ ((res : SingleQueryResult) × (recs : List NsRecord) × (reply.result ≡ some res)
          × (got.servers ≡ some recs)
          × (got.status ≡ Status.no_error)
          × (got.error ≡ none)
          × AreServers net cfg lookups ns lookup_a lookup_aaaa res.additionals res.answers recs)
