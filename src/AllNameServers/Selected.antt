-- ===== src/AllNameServers/Selected.antt =====
-- The results of `queryAllNameServersInLayer` of src/zdns/lookup.go.
use zdns.Prelude.{ℕ, ◌≡◌, ◌⊎◌, Bool, true, Option, none, some, List, [], ◌∷◌, ◌++◌, Text}
use zdns.Records.{Question}
use zdns.Records.NameServers.{NameServer}
use zdns.Resolver.{Config, Resolver, Reply, Network}
use zdns.Resolver.External.{Lookups, external_lookup}
use zdns.AllNameServers.{ExtendedResult}
use zdns.AllNameServers.Layer.{LayerReply, Asking, extended_result}
use zdns.AllNameServers.Reliable.{IsReliable}

module _ {W C M : Type 0} (net : Network W C M) (cfg : Config) (lookups : Lookups W C)
    (type_to_string : ℕ → Text) (ctx : C) (q : Question) where
  -- The result is of a lookup at a server of the name.
  pub record IsReplyOf (name : Text) (result : ExtendedResult) : Type 0 where
    before : Resolver W
    after : Resolver W
    at : NameServer
    reply : Reply
    looked_up : external_lookup net cfg lookups before ctx q (some at) ≡ some (after, reply)
    named : at.domain_name ≡ name
    made : result ≡ extended_result net cfg lookups type_to_string q at reply

  -- The results of some of the servers, in their order. One is left out if it has no address, or at
  -- the end if the time was over.
  pub data Selected (expired : Bool) : List NameServer → List ExtendedResult → Type 0 where
    all : Selected expired [] []
    stopped : {servers : List NameServer} → expired ≡ true → Selected expired servers []
    skipped :
        {ns : NameServer} {servers : List NameServer} {results : List ExtendedResult}
        → ns.ip ≡ none
        → Selected expired servers results
        → Selected expired (ns ∷ servers) results
    answered :
        {ns : NameServer} {servers : List NameServer} {res : ExtendedResult}
        {results : List ExtendedResult}
        → IsReplyOf ns.domain_name res
        → Selected expired servers results
        → Selected expired (ns ∷ servers) (res ∷ results)

  -- what the retries at a server end in
  abbrev Outcome : ℕ → NameServer → Option ExtendedResult → Asking → Type 0
  Outcome n ns before got =
      (got.expired ≡ true)
      ⊎ ((got.ext_result ≡ before) × ((n ≡ 0) ⊎ (ns.ip ≡ none)))
      ⊎ ((res : ExtendedResult) × (got.ext_result ≡ some res) × IsReplyOf ns.domain_name res)

  module _ {Usable : Resolver W → Type 0} {Asks : Question → Type 0}
      (reliable : IsReliable cfg Usable Asks lookups) (asks : Asks q) where
    -- what was gathered before, and the results of the servers behind it
    abbrev Gathers : List NameServer → List ExtendedResult → LayerReply → Type 0
    Gathers servers before got =
        (results : List ExtendedResult) × (got.results ≡ before ++ results)
        × Selected got.expired servers results
