-- ===== src/Resolver/Authorities.antt =====
-- `iterateOnAuthorities` and `extractAuthority` of src/zdns/lookup.go: from a referral to a reply. The
-- iterative lookup one level deeper is an argument. `none` is a panic.
use zdns.Prelude.{
  ℕ, Bool, true, false, not, ◌||◌, Option, none, some, List, [], ◌∷◌, ◌>>=◌, if◌then◌else◌, Text,
  codes, text_eq, trim_suffix,
}
use zdns.Names.{dot, name_is_beneath}
use zdns.Records.{
  Question, Answer, AnyAnswer, typed, Kind, as_answer, Status, SingleQueryResult, TraceStep,
  safe_status, is_status_answer, type_a, type_aaaa, class_inet,
}
use zdns.Records.NameServers.{
  NameServer, IpVersionMode, IterationIpPreference, populate_default_port,
}
use zdns.Lookup.Glue.{check_glue}
use zdns.Cache.Build.{is_nil}
use zdns.Resolver.{with_own_retries, Config, Resolver, LookupError, Reply, Network, failure}

-- the statuses with which `extractAuthority` gives up at once
unfoldable pub is_no_glue_or_timeout : Status → Bool
is_no_glue_or_timeout Status.iter_timeout = true
is_no_glue_or_timeout Status.no_needed_glue = true
is_no_glue_or_timeout _ = false

unfoldable pub is_iter_timeout : Status → Bool
is_iter_timeout Status.iter_timeout = true
is_iter_timeout _ = false

unfoldable pub is_no_needed_glue : Status → Bool
is_no_needed_glue Status.no_needed_glue = true
is_no_needed_glue _ = false

-- `case DSAnswer, RRSIGAnswer, NSECAnswer, NSEC3Answer`
unfoldable pub is_dnssec_record : AnyAnswer → Bool
is_dnssec_record (typed Kind.ds a rest) = true
is_dnssec_record (typed Kind.rrsig a rest) = true
is_dnssec_record (typed Kind.nsec a rest) = true
is_dnssec_record (typed Kind.nsec3 a rest) = true
is_dnssec_record _ = false

-- the type of the question for the address of a name server
unfoldable pub address_type : IpVersionMode → IterationIpPreference → ℕ
address_type IpVersionMode.ipv6_only preference = type_aaaa
address_type IpVersionMode.ipv4_or_ipv6 IterationIpPreference.prefer_ipv6 = type_aaaa
address_type IpVersionMode.ipv4_or_ipv6 IterationIpPreference.prefer_ipv4 = type_a
address_type IpVersionMode.ipv4_only preference = type_a

-- whether an answer of that type is an address that the mode allows
unfoldable pub is_usable_address : IpVersionMode → Text → Bool
is_usable_address IpVersionMode.ipv4_only t = text_eq t (codes "A")
is_usable_address IpVersionMode.ipv6_only t = text_eq t (codes "AAAA")
is_usable_address IpVersionMode.ipv4_or_ipv6 t = text_eq t (codes "A") || text_eq t (codes "AAAA")

-- the first answer that is a usable address
unfoldable pub find_address : IpVersionMode → List AnyAnswer → Option Answer
unfolding as_answer is_usable_address
find_address mode [] = none
find_address mode (x ∷ xs) = elim (as_answer x) [
  | none ↦ find_address mode xs
  | some a ↦ if is_usable_address mode a.type then some a else find_address mode xs
]

-- the arguments of a lookup one level deeper: state, context, question, servers, layer, trace
abbrev pub Deeper : Type 0 → Type 0 → Type 0
Deeper W C =
    Resolver W
    → C
    → Question
    → List NameServer
    → Text
    → List TraceStep
    → Option (Resolver W × Reply)

-- the results of `extractAuthority`
pub record Extracted : Type 0 where
  pub name_server : Option NameServer
  pub status : Status
  pub layer : Text
  pub trace : List TraceStep

module _ {W C M : Type 0} (net : Network W C M) (cfg : Config) where
  -- the name server of an address
  unfoldable pub server_of : Text → Answer → NameServer
  unfolding populate_default_port
  server_of server a =
      populate_default_port
        (record { ip = net.parse_ip (trim_suffix a.answer dot); port = 0; domain_name = server })
        cfg.dns_over_tls cfg.dns_over_https

  -- the end of `extractAuthority`
  unfoldable pub read_address :
      Text → Text → Option SingleQueryResult → Status → List TraceStep → Option Extracted
  unfolding find_address server_of safe_status is_no_glue_or_timeout
  read_address server layer res status trace =
      let failed : Extracted = record {
        name_server = none;
        status = Status.serv_fail;
        layer = layer;
        trace = trace;
      } in
      if is_no_glue_or_timeout status
      then some (record { name_server = none; status = status; layer = []; trace = trace })
      else if safe_status status
      then elim res [
        | none ↦ none
        | some r ↦ elim (find_address cfg.ip_version_mode r.answers) [
          | none ↦ some failed
          | some a ↦ some (record {
            name_server = some (server_of server a);
            status = Status.no_error;
            layer = layer;
            trace = trace;
          })
        ]
      ]
      else some failed

  -- The resolver after a lookup with its own retries: those of the question at hand are as before.
  abbrev pub after_own_retries : Resolver W → Resolver W → Resolver W
  after_own_retries r r' = record r' {
    retries_remaining = elim r.own_retries [
      | none ↦ r'.retries_remaining
      | some n ↦ r.retries_remaining
    ];
    own_retries = elim r.own_retries [ none ↦ none | some n ↦ some r'.retries_remaining ];
    should_validate_dnssec = r.should_validate_dnssec;
  }

  -- The address of a name server without glue is looked up from the root, without validation and with
  -- the retries of the resolver.
  unfoldable pub look_up_server :
      Deeper W C → Resolver W → C → Text → Text → List TraceStep → Option (Resolver W × Extracted)
  unfolding read_address address_type
  look_up_server deeper r ctx server layer trace = do
    (r', reply) ←
        deeper (record (with_own_retries r) { should_validate_dnssec = false }) ctx
          (record {
            type = address_type cfg.ip_version_mode cfg.iteration_ip_preference;
            class = class_inet;
            name = server;
          })
          cfg.root_name_servers dot trace
    found ← read_address server layer reply.result reply.status reply.trace
    some (after_own_retries r r', found)

  unfoldable pub extract_authority :
      Deeper W C
      → Resolver W
      → C
      → AnyAnswer
      → Text
      → SingleQueryResult
      → List TraceStep
      → Option (Resolver W × Extracted)
  unfolding look_up_server read_address as_answer name_is_beneath check_glue safe_status
  extract_authority deeper r ctx authority layer result trace = elim (as_answer authority) [
    | none ↦
        some
          (r, record { name_server = none; status = Status.form_err; layer = layer; trace = trace })
    | some a ↦
        let (inside, layer') = name_is_beneath a.name layer in
        let server = trim_suffix a.answer dot in
        let (glue, status) =
          check_glue server result cfg.ip_version_mode cfg.iteration_ip_preference in
        if not inside
        then some (
          r,
          record { name_server = none; status = Status.auth_fail; layer = layer'; trace = trace },
        )
        else if safe_status status
        then (do found ← read_address server layer' glue status trace; some (r, found))
        else look_up_server deeper r ctx server layer' trace
  ]

  -- the loop of `iterateOnAuthorities`
  unfoldable pub try_authorities :
      Deeper W C
      → Resolver W
      → C
      → Question
      → List AnyAnswer
      → SingleQueryResult
      → Text
      → List TraceStep
      → Option (Resolver W × Reply)
  unfolding is_dnssec_record extract_authority is_iter_timeout is_no_needed_glue safe_status
      is_status_answer
  try_authorities deeper r ctx q [] result layer trace =
      some (r, failure Status.serv_fail trace (some LookupError.no_valid_name_servers))
  try_authorities deeper r ctx q (x ∷ xs) result layer trace =
      let go_on : Resolver W → List TraceStep → Option (Resolver W × Reply) =
        λ r' trace'. try_authorities deeper r' ctx q xs result layer trace' in
      let (w, expired) = net.has_expired r.world ctx in
      if is_dnssec_record x
      then go_on r trace
      else if expired
      then some (record r { world = w }, failure Status.timeout trace none)
      else (do
        (r', found) ← extract_authority deeper (record r { world = w }) ctx x layer result trace
        (if is_iter_timeout found.status
            then some (r', failure Status.iter_timeout found.trace none)
            else if not (safe_status found.status)
            then go_on r' found.trace
            else elim found.name_server [
              | none ↦ none
              | some ns ↦ do
                (r'', reply) ← deeper r' ctx q (ns ∷ []) found.layer found.trace
                (if is_no_needed_glue reply.status
                    then go_on r'' reply.trace
                    else if is_status_answer reply.status
                    then some (r'', reply)
                    else go_on r'' reply.trace)
            ]))

  unfoldable pub iterate_on_authorities :
      Deeper W C
      → Resolver W
      → C
      → Question
      → SingleQueryResult
      → Text
      → List TraceStep
      → Option (Resolver W × Reply)
  unfolding try_authorities
  iterate_on_authorities deeper r ctx q result layer trace =
      if is_nil result.authorities
      then some (
        r,
        record {
          result = none;
          is_cached = false;
          status = Status.no_auth;
          trace = trace;
          error = none;
        },
      )
      else let (w, authorities) = net.shuffle r.world result.authorities in
        try_authorities deeper (record r { world = w }) ctx q authorities result layer trace
