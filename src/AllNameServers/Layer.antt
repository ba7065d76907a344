-- ===== src/AllNameServers/Layer.antt =====
-- `queryAllNameServersInLayer` and `populateNameServerIP` of src/zdns/lookup.go: the queries at the name
-- servers of one layer. `none` is a panic.
use zdns.Prelude.{
  ℕ, zero, suc, Bool, true, false, not, ◌&&◌, ◌||◌, Option, none, some, List, [], ◌∷◌, ◌++◌, ◌==◌,
  ◌>>=◌, if◌then◌else◌, Text,
}
use zdns.Records.{
  Question, Answer, AnyAnswer, as_answer, empty_result, TraceStep, safe_status, type_a, type_aaaa,
  class_inet,
}
use zdns.Records.NameServers.{NameServer, populate_default_port}
use zdns.Lookup.Glue.{is_dual}
use zdns.Resolver.{with_own_retries, is_error, Config, Resolver, Reply, Network}
use zdns.Resolver.Authorities.{address_type}
use zdns.Resolver.Following.{FollowCall}
use zdns.Resolver.External.{Lookups, external_lookup}
use zdns.AllNameServers.{ExtendedResult}

-- the first answer of a type
unfoldable pub find_type : ℕ → List AnyAnswer → Option Answer
unfolding as_answer
find_type type [] = none
find_type type (x ∷ xs) = elim (as_answer x) [
  | none ↦ find_type type xs
  | some a ↦ if a.rr_type == type then some a else find_type type xs
]

-- what the queries of a layer have gathered; `expired` is the error `ErrorContextExpired`
pub record LayerReply : Type 0 where
  pub results : List ExtendedResult
  pub trace : List TraceStep
  pub is_authoritative : Bool
  pub expired : Bool

-- the state of the retries at one name server
pub record Asking : Type 0 where
  pub ext_result : Option ExtendedResult
  pub trace : List TraceStep
  pub is_authoritative : Bool
  pub expired : Bool

module _ {W C M : Type 0} (net : Network W C M) (cfg : Config) (lookups : Lookups W C) where
  -- the arguments of the lookup of an address
  abbrev pub address_call : C → NameServer → ℕ → FollowCall C
  address_call ctx ns type = record {
    ctx = ctx;
    q = record { type = type; class = class_inet; name = ns.domain_name };
    name_servers = cfg.root_name_servers;
    is_iterative = true;
  }

  -- One lookup of the address of a server. The inner `none` says that it has none of the type.
  unfoldable pub look_up_address :
      Resolver W → C → NameServer → ℕ → Option (Resolver W × Option (NameServer × List TraceStep))
  unfolding find_type safe_status
  look_up_address r ctx ns type = do
    (r', reply) ← lookups.following_lookup (address_call ctx ns type) r
    (if is_error reply.error || not (safe_status reply.status)
        then some (r', none)
        else elim reply.result [
          | none ↦ none
          | some res ↦ elim (find_type type res.answers) [
            | none ↦ some (r', none)
            | some a ↦ some (r', some (record ns { ip = net.parse_ip a.answer }, reply.trace))
          ]
        ])

  -- a lookup of that type, and then one of the other; both use up the same retries
  unfoldable pub look_up_addresses :
      Resolver W → C → NameServer → ℕ → Option (Resolver W × Option (NameServer × List TraceStep))
  unfolding look_up_address is_dual
  look_up_addresses r ctx ns type = do
    (r', first) ← look_up_address r ctx ns type
    elim first [
      | some got ↦ some (r', some got)
      | none ↦
          if is_dual cfg.ip_version_mode
          then look_up_address r' ctx ns (if type == type_a then type_aaaa else type_a)
          else some (r', none)
    ]

  -- `none` is the error that no address was found. The lookups have retries of their own.
  unfoldable pub populate_name_server_ip :
      Resolver W → C → NameServer → Option (Resolver W × Option (NameServer × List TraceStep))
  unfolding look_up_addresses address_type
  populate_name_server_ip r ctx ns = elim ns.ip [
    | some ip ↦ some (r, some (ns, []))
    | none ↦ do
      (r', got) ←
          look_up_addresses
            (record r { retries_remaining = cfg.retries; own_retries = some r.retries_remaining })
            ctx ns (address_type cfg.ip_version_mode cfg.iteration_ip_preference)
      some (with_own_retries r', got)
  ]

  abbrev pub extended_result : (ℕ → Text) → Question → NameServer → Reply → ExtendedResult
  extended_result type_to_string q ns reply = record {
    type = type_to_string q.type;
    res = elim reply.result [ none ↦ empty_result | some res ↦ res ];
    status = reply.status;
    nameserver = ns.domain_name;
  }

  -- a successful lookup, and whether its answer is authoritative
  abbrev pub is_success : Reply → Bool
  is_success reply =
      not (is_error reply.error)
      && (safe_status reply.status && elim reply.result [ none ↦ false | some res ↦ true ])

  abbrev pub has_authority : Reply → Bool
  has_authority reply = elim reply.result [ none ↦ false | some res ↦ res.flags.authoritative ]

  -- the state of the retries after a lookup
  abbrev pub with_reply :
      (ℕ → Text) → Question → NameServer → Asking → List TraceStep → Reply → Asking
  with_reply type_to_string q ns s ns_trace reply = record {
    ext_result = some (extended_result type_to_string q ns reply);
    trace = (s.trace ++ ns_trace) ++ reply.trace;
    is_authoritative = s.is_authoritative || is_success reply && has_authority reply;
    expired = false;
  }

  module _ (type_to_string : ℕ → Text) (ctx : C) (q : Question) where
    -- at most as many rounds as the limit, in each of which the address may fail to be found
    unfoldable pub ask_name_server :
        ℕ → Resolver W → NameServer → Asking → Option (Resolver W × Asking)
    unfolding populate_name_server_ip external_lookup
    ask_name_server zero r ns s = some (r, s)
    ask_name_server (suc n) r ns s =
        let (w, expired) = net.has_expired r.world ctx in
        let r0 : Resolver W = record r { world = w } in
        if expired then some (r0, record s { expired = true }) else (do
          (r1, populated) ← populate_name_server_ip r0 ctx ns
          elim populated [
            | none ↦ ask_name_server n r1 ns s
            | some (ns', ns_trace) ↦ do
              (r2, reply) ← external_lookup net cfg lookups r1 ctx q (some ns')
              (let s' = with_reply type_to_string q ns s ns_trace reply in
                  let ns'' = populate_default_port ns' cfg.dns_over_tls cfg.dns_over_https in
                  let rest = ask_name_server n r2 ns'' s' in
                  if is_success reply then some (r2, s') else rest)
          ])

    unfoldable pub query_servers :
        ℕ → Resolver W → List NameServer → LayerReply → Option (Resolver W × LayerReply)
    unfolding ask_name_server
    query_servers limit r [] s = some (r, s)
    query_servers limit r (ns ∷ servers) s = do
      (r', asked) ← ask_name_server limit r ns (record {
        ext_result = none;
        trace = s.trace;
        is_authoritative = s.is_authoritative;
        expired = false;
      })
      (let s' : LayerReply = record {
        results = s.results ++ elim asked.ext_result [ none ↦ [] | some res ↦ res ∷ [] ];
        trace = asked.trace;
        is_authoritative = asked.is_authoritative;
        expired = false;
      } in
          if asked.expired
          then some (r', record s { trace = asked.trace; is_authoritative = false; expired = true })
          else query_servers limit r' servers s')

    unfoldable pub query_all_name_servers_in_layer :
        ℕ → Resolver W → List NameServer → Option (Resolver W × LayerReply)
    unfolding query_servers
    query_all_name_servers_in_layer limit r servers =
        query_servers limit r servers
          (record { results = []; trace = []; is_authoritative = false; expired = false })
