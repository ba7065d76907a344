-- ===== src/Resolver.antt =====
-- src/zdns/resolver.go and lookup.go: the state of a resolver and what it uses of the outside. The
-- sockets, the clock, the random numbers and the validation of DNSSEC signatures are an interface,
-- `Network`, over a world that each use may change.
pub mod Wire
pub mod Cached
pub mod Cycle
pub mod Authorities
pub mod Settled
pub mod Iterate
pub mod Following
pub mod External
use zdns.Prelude.{
  ℕ, Bool, true, false, ◌||◌, Option, none, some, List, [], ◌∷◌, Text, if◌then◌else◌,
}
use zdns.Records.{
  Question, AnyAnswer, Status, SingleQueryResult, empty_result, DnssecResult, TraceStep,
}
use zdns.Records.NameServers.{NameServer, TransportMode, IpVersionMode, IterationIpPreference}
use zdns.Cache.{Cache}
use zdns.Cache.Build.{CachedKey, Question-discrete}

-- the fields of a resolver that do not change
pub record Config : Type 0 where
  pub retries : ℕ
  pub max_depth : ℕ
  pub transport_mode : TransportMode
  pub ip_version_mode : IpVersionMode
  pub iteration_ip_preference : IterationIpPreference
  pub network_timeout : ℕ
  pub iterative_timeout : ℕ
  pub root_name_servers : List NameServer
  pub external_name_servers : List NameServer
  pub timeout : ℕ
  pub lookup_all_name_servers : Bool
  pub follow_cnames : Bool
  pub has_blacklist : Bool
  pub dns_over_https : Bool
  pub dns_over_tls : Bool

-- The fields that change. `retries_remaining` are the retries of the question at hand, which count down
-- from a number that is not negative. They are the field `retriesRemaining` but for a question with
-- retries of its own, during which `own_retries` are that field.
pub record Resolver (W : Type 0) : Type 0 where
  pub world : W
  pub cache : Cache
  pub retries_remaining : ℕ
  pub own_retries : Option ℕ
  pub pending_queries : List Question
  pub should_validate_dnssec : Bool
  pub last_used_external_name_server : Option NameServer
  pub is_closed : Bool

-- with the retries of the resolver for the question at hand
abbrev pub with_own_retries : {W : Type 0} → Resolver W → Resolver W
with_own_retries r = record r {
  retries_remaining = elim r.own_retries [ none ↦ r.retries_remaining | some n ↦ n ];
  own_retries = none;
}

-- the errors that the functions make themselves, and that of the outside
pub data LookupError : Type 0 where
  circular_query invalid_name_server blacklist_check next_authority_error : LookupError
  no_connection_info lookup_failed out_of_retries did_not_exit : LookupError
  max_depth_reached no_answers_or_authorities no_valid_name_servers : LookupError
  unexpected_record no_name_server invalid_name invalid_destination : LookupError
  context_expired no_external_name_servers no_address_type : LookupError

pub record Reply : Type 0 where
  pub result : Option SingleQueryResult
  pub is_cached : Bool
  pub status : Status
  pub trace : List TraceStep
  pub error : Option LookupError

-- `err != nil`
abbrev pub is_error : Option LookupError → Bool
is_error none = false
is_error (some e) = true

-- which of the clients of a `ConnectionInfo` are not nil
pub record ConnectionInfo : Type 0 where
  pub has_udp : Bool
  pub has_tcp : Bool

pub data Protocol : Type 0 where
  doh dot udp tcp : Protocol

-- the results of a wire lookup; `failed` is an error that is not nil
pub record WireReply (M : Type 0) : Type 0 where
  pub result : Option SingleQueryResult
  pub raw : M
  pub status : Status
  pub failed : Bool

-- `W` is the world, `C` are contexts with their deadlines and `M` are raw messages.
pub record Network (W C M : Type 0) : Type 0 where
  -- net.IP.String, net.ParseIP, the hash of the cache
  pub ip_string : List ℕ → Text
  pub parse_ip : Text → Option (List ℕ)
  pub hash : CachedKey → ℕ
  -- time.Now, context.Background, context.WithTimeout, util.HasCtxExpired
  pub now : W → W × ℕ
  pub background : C
  pub with_timeout : W → C → ℕ → W × C
  pub has_expired : W → C → W × Bool
  -- rand.Intn, rand.Perm and rand.Shuffle
  pub intn : W → ℕ → W × ℕ
  pub perm : W → ℕ → W × List ℕ
  pub shuffle : W → List AnyAnswer → W × List AnyAnswer
  -- `IsBlacklisted`, `none` for an error
  pub is_blacklisted : Text → Option Bool
  -- `getConnectionInfo`, `none` for an error or a nil
  pub get_connection_info : W → NameServer → W × Option ConnectionInfo
  -- the four wire lookups, for a question whose name ends in a dot
  pub wire : Protocol → W → C → Question → NameServer → Bool → W × WireReply M
  -- `validator.validate`, which may itself look up; `none` is a panic
  pub validate :
      Resolver W
      → Text
      → M
      → NameServer
      → List TraceStep
      → Option (Resolver W × DnssecResult × List TraceStep)

-- the replies without a result of their own
abbrev pub failure : Status → List TraceStep → Option LookupError → Reply
failure status trace error = record {
  result = some empty_result;
  is_cached = false;
  status = status;
  trace = trace;
  error = error;
}

-- a lookup in the map `pendingQueries`, and `delete`
abbrev pub is_pending : List Question → Question → Bool
is_pending [] q = false
is_pending (p ∷ ps) q = elim (Question-discrete p q) [ yes e ↦ true | no n ↦ is_pending ps q ]

abbrev pub delete_pending : List Question → Question → List Question
delete_pending [] q = []
delete_pending (p ∷ ps) q = elim (Question-discrete p q) [
  | yes e ↦ delete_pending ps q
  | no n ↦ p ∷ delete_pending ps q
]

-- the replies with a result and no error
abbrev pub success : SingleQueryResult → Bool → List TraceStep → Reply
success res is_cached trace = record {
  result = some res;
  is_cached = is_cached;
  status = Status.no_error;
  trace = trace;
  error = none;
}
