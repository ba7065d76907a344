-- ===== src/AllNameServers/Iterative.antt =====
-- `LookupAllNameserversIterative` of src/zdns/lookup.go: all name servers of one layer after the other,
-- down from the root. `none` is a panic, or the end of the fuel.
use zdns.Prelude.{
  ℕ, zero, suc, ◌+◌, Bool, false, ◌||◌, Option, none, some, List, [], ◌∷◌, ◌++◌, any, ◌==◌, ◌>>=◌,
  if◌then◌else◌, Text, text_eq, length,
}
use zdns.Names.{dot, next_authority}
use zdns.Records.{
  Question, AnyAnswer, as_answer, Status, TraceStep, type_ns, type_cname, type_dname,
}
use zdns.Records.NameServers.{NameServer}
use zdns.Lookup.Servers.{ServerMap, filter_name_servers_for_unique_names}
use zdns.Cache.Build.{is_nil}
use zdns.Resolver.{Config, Resolver, LookupError, Network}
use zdns.Resolver.External.{Lookups}
use zdns.AllNameServers.{ExtendedResult, Layers, AllReply}
use zdns.AllNameServers.Extract.{Orders, extract_name_servers_from_layer_results}
use zdns.AllNameServers.Layer.{query_all_name_servers_in_layer}

-- The results of a layer, added behind those that it has. Where it has none, they are put there.
unfoldable pub add_layer : Layers → Text → List ExtendedResult → Layers
add_layer [] layer results = (layer, results) ∷ []
add_layer (e ∷ m) layer results =
    let rest = add_layer m layer results in
    if text_eq e.0 layer then (layer, e.1 ++ results) ∷ m else e ∷ rest

abbrev pub is_alias : AnyAnswer → Bool
is_alias x = elim (as_answer x) [
  | none ↦ false
  | some a ↦ a.rr_type == type_cname || a.rr_type == type_dname
]

-- whether a result of the layer has a CNAME or a DNAME
unfoldable pub found_referral : List ExtendedResult → Bool
unfolding as_answer
found_referral = any (λ res. any is_alias res.res.answers)

abbrev pub per_name_server_retries_limit : ℕ
per_name_server_retries_limit = 2

-- the variables of the loop
pub record Descending : Type 0 where
  pub layer : Text
  pub servers : List NameServer
  pub layers : Layers
  pub trace : List TraceStep

-- what a round of the loop ends in: a return, another round, or the last layer
pub data Step : Type 0 where
  returned : AllReply Layers → Step
  descended bottom : Descending → Step

abbrev pub all_reply : Layers → List TraceStep → Status → Option LookupError → AllReply Layers
all_reply layers trace status error = record {
  result = layers;
  trace = trace;
  status = status;
  error = error;
}

-- the rest of a round, after the servers of the layer were asked
unfoldable pub next_layer : Text → Descending → List ExtendedResult → List NameServer → Step
unfolding next_authority found_referral
next_layer name s results new_servers = elim (next_authority name s.layer) [
  | none ↦
      returned (all_reply s.layers s.trace Status.error (some LookupError.next_authority_error))
  | some new_layer ↦
      if text_eq new_layer s.layer
      then bottom (record s { servers = s.servers ++ new_servers })
      else if is_nil new_servers
      then (if found_referral results
          then returned (all_reply s.layers s.trace Status.no_error none)
          else returned (all_reply s.layers s.trace Status.error (some LookupError.no_name_server)))
      else descended (record s { layer = new_layer; servers = new_servers })
]

module _ {W C M : Type 0} (net : Network W C M) (cfg : Config) (lookups : Lookups W C)
    (type_to_string : ℕ → Text) (server_order : ℕ → ServerMap → ServerMap)
    (orders : ℕ → Orders) where
  abbrev pub unique_servers : ℕ → List NameServer → Option (List NameServer)
  unique_servers i servers =
      filter_name_servers_for_unique_names cfg.ip_version_mode cfg.iteration_ip_preference
        (server_order i) servers

  -- round `i` of the loop, in which `q` has type NS
  unfoldable pub descend_step :
      C → Question → ℕ → Descending → Resolver W → Option (Resolver W × Step)
  unfolding filter_name_servers_for_unique_names query_all_name_servers_in_layer add_layer
      extract_name_servers_from_layer_results next_layer
  descend_step ctx q i s r = do
    servers ← unique_servers i s.servers
    (r', reply) ←
        query_all_name_servers_in_layer net cfg lookups type_to_string ctx q
          per_name_server_retries_limit r servers
    (let trace = s.trace ++ reply.trace in
        let s' : Descending = record {
          layer = s.layer;
          servers = servers;
          layers = add_layer s.layers s.layer reply.results;
          trace = trace;
        } in
        if reply.expired
        then some (
          r',
          returned (all_reply s.layers trace Status.timeout (some LookupError.context_expired)),
        )
        else some (
          r',
          next_layer q.name s' reply.results (
              extract_name_servers_from_layer_results net.ip_string net.parse_ip cfg.ip_version_mode
                (orders i) reply.results),
        ))

  -- the last layer, at which the question is asked as it was; here an end of the time is an error
  unfoldable pub ask_bottom :
      C → Question → ℕ → Descending → Resolver W → Option (Resolver W × AllReply Layers)
  unfolding filter_name_servers_for_unique_names query_all_name_servers_in_layer add_layer
  ask_bottom ctx q i s r = do
    servers ← unique_servers i s.servers
    (r', reply) ←
        query_all_name_servers_in_layer net cfg lookups type_to_string ctx q
          per_name_server_retries_limit r servers
    (let trace = s.trace ++ reply.trace in
        if reply.expired
        then some (r', all_reply s.layers trace Status.error (some LookupError.context_expired))
        else some
            (r', all_reply (add_layer s.layers s.layer reply.results) trace Status.no_error none))

  -- The question that is left to the caller, whose type is NS until the bottom is reached.
  unfoldable pub descend :
      ℕ
      → ℕ
      → C
      → Question
      → Descending
      → Resolver W
      → Option (Resolver W × AllReply Layers × Question)
  unfolding descend_step ask_bottom
  descend zero i ctx q s r = none
  descend (suc fuel) i ctx q s r = do
    (r', step) ← descend_step ctx (record q { type = type_ns }) i s r
    elim step [
      | returned reply ↦ some (r', reply, record q { type = type_ns })
      | descended s' ↦ descend fuel (i + 1) ctx q s' r'
      | bottom s' ↦ do (r'', reply) ← ask_bottom ctx q (i + 1) s' r'; some (r'', reply, q)
    ]

  -- Each layer but the first is longer than the one before, and ends at the name.
  unfoldable pub lookup_all_nameservers_iterative :
      Resolver W → Question → List NameServer → Option (Resolver W × AllReply Layers × Question)
  unfolding descend
  lookup_all_nameservers_iterative r q root_name_servers =
      let (w, ctx) = net.with_timeout r.world net.background cfg.timeout in
      descend (length q.name + 3) 0 ctx q
        (record {
          layer = dot;
          servers = if is_nil root_name_servers then cfg.root_name_servers else root_name_servers;
          layers = [];
          trace = [];
        })
        (record r { world = w })
