-- ===== src/Resolver/External.antt =====
-- `ExternalLookup`, `IterativeLookup` and `randomExternalNameServer` of src/zdns/resolver.go. `none` is
-- a panic, or the end of the program by `log.Fatal`.
use zdns.Prelude.{
  ℕ, Bool, true, false, not, Option, none, some, List, [], ◌∷◌, ◌>>=◌, if◌then◌else◌, Text, length,
  get_elem?,
}
use zdns.Records.{Question, Status}
use zdns.Records.NameServers.{NameServer, populate_default_port, is_valid_name_server}
use zdns.Lookup.Chains.{AnswerMap}
use zdns.Cache.Build.{is_nil}
use zdns.Resolver.{Config, Resolver, LookupError, Reply, Network}
use zdns.Resolver.Following.{FollowCall, following_lookup, do_dst_servers_lookup}

-- The lookups of names that the others are made of: the method of the interface `Lookuper`, which is
-- the field `lookupClient` of a resolver, and the method `followingLookup`.
pub record Lookups (W C : Type 0) : Type 0 where
  pub do_dst_servers_lookup :
      Resolver W → C → Question → List NameServer → Bool → Option (Resolver W × Reply)
  pub following_lookup : FollowCall C → Resolver W → Option (Resolver W × Reply)

-- those of `LookupClient`
abbrev pub lookup_client :
    {W C M : Type 0}
    → Network W C M
    → Config
    → (Text → ℕ)
    → (ℕ → ℕ → AnswerMap → AnswerMap)
    → (ℕ → AnswerMap → AnswerMap)
    → (Text → Option Text)
    → (Text → Bool)
    → Lookups W C
lookup_client net cfg string_to_type order dname_order reverse_addr is_valid_domain_name = record {
  do_dst_servers_lookup =
      do_dst_servers_lookup net cfg string_to_type order dname_order reverse_addr
        is_valid_domain_name;
  following_lookup = following_lookup net cfg string_to_type order dname_order;
}

-- the reply for a server that is not valid
abbrev pub refused : Reply
refused = record {
  result = none;
  is_cached = false;
  status = Status.illegal_input;
  trace = [];
  error = some LookupError.invalid_destination;
}

module _ {W C M : Type 0} (net : Network W C M) (cfg : Config) (lookups : Lookups W C) where
  unfoldable pub random_external_name_server : W → Option (W × NameServer)
  random_external_name_server w = if is_nil cfg.external_name_servers then none else (do
    (let (w', i) = net.intn w (length cfg.external_name_servers) in
        elim (get_elem? cfg.external_name_servers i) [ none ↦ none | some ns ↦ some (w', ns) ]))

  -- the server that is asked when none, or one, is given
  unfoldable pub destination : Resolver W → Option NameServer → Option (Resolver W × NameServer)
  unfolding random_external_name_server
  destination r (some ns) = some (r, ns)
  destination r none = elim r.last_used_external_name_server [
    | some ns ↦ some (r, ns)
    | none ↦ do (w, ns) ← random_external_name_server r.world; some (record r { world = w }, ns)
  ]

  -- The default port is also written where the pointer to the server leads; each use sets it again.
  unfoldable pub external_lookup :
      Resolver W → C → Question → Option NameServer → Option (Resolver W × Reply)
  unfolding destination
  external_lookup r ctx q dst_server = if r.is_closed then none else (do
    (r', ns) ← destination r dst_server
    (let ns' = populate_default_port ns cfg.dns_over_tls cfg.dns_over_https in
        if not (is_valid_name_server ns')
        then some (r', refused)
        else lookups.do_dst_servers_lookup (record r' { last_used_external_name_server = some ns' })
            ctx q (ns' ∷ []) false))

  unfoldable pub resolver_iterative_lookup : Resolver W → C → Question → Option (Resolver W × Reply)
  resolver_iterative_lookup r ctx q =
      if r.is_closed then none else lookups.do_dst_servers_lookup r ctx q cfg.root_name_servers true
