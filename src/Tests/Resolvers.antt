-- ===== src/Tests/Resolvers.antt =====
-- The theorems on the lookups of a resolver at concrete inputs: a network that always answers with the
-- same response, whose world counts what is sent.
use zdns.Prelude.{ℕ, ◌+◌, ◌≤◌, ◌≡◌, refl, true, false, none, some, [], ◌∷◌, codes}
use zdns.Records.{Question, type_ptr, Status, safe_status}
use zdns.Records.NameServers.{to4, is_valid_name_server, show_name_server}
use zdns.Cache.Build.{Question-discrete, make_dnssec_result, build_cached_result}
use zdns.Cache.Valid.{IsValid}
use zdns.Cache.Read.{stored}
use zdns.Resolver.{Resolver, Reply, Network, success}
use zdns.Lookup.Glue.{is_seen}
use zdns.Resolver.Cached.{cached_protocol, cached_lookup}
use zdns.Resolver.Cached.Frame.{Keeps, cached_lookup-Keeps}
use zdns.Resolver.Cached.Hit.{cached_lookup_hit}
use zdns.Resolver.Cycle.{
  CycleCall, first_unqueried, get_random_non_queried_name_server, cycle, cycling_lookup,
}
use zdns.Names.{dot_name}
use zdns.Records.{AnyAnswer}
use zdns.Lookup.Chains.Targets.{LeadsWell}
use zdns.Prelude.{has_suffix, text_eq, Text, ℕ_discrete}
use zdns.CacheHash
use zdns.ShardedCacheHash
use zdns.ShardedCacheHash.{get_shard, put_shard, get_shard_id}
use zdns.Cache.{get_cached_results, get_cached_result, read_entry}
use zdns.Cache.Stats.{no_statistics, increment_misses}
use zdns.Records.{is_status_retryable}
use zdns.Records.NameServers.{show_port, decimal}
use zdns.Resolver.Cached.{lookup_pending, ask_cache, use_cached, after_cache, after_blacklist}
use zdns.Resolver.Wire.{wire_by, go_to_wire, wire_udp, finish_wire, accept_reply, is_truncated}
use zdns.Lookup.Chains.{AnswerMap}
use zdns.Resolver.Following.{FollowCall, following_lookup, follow, lookup, follow_round}
use zdns.Resolver.Following.Retries.{following_lookup-retries}
use zdns.Resolver.Settled.{Settled}
use zdns.Tests.Data.{
  cfg, test_hash, test_ip_string, question, response, name_server, stocked, stocked-IsValid,
  stocked-holds, response-IsFresh, response_kept,
}

abbrev pub net : Network ℕ ℕ Unit
net = record {
  ip_string = test_ip_string;
  parse_ip = λ t. none;
  hash = test_hash;
  now = λ w. (w, 7);
  background = 0;
  with_timeout = λ w ctx d. (w, ctx);
  has_expired = λ w ctx. (w, false);
  intn = λ w n. (w, 0);
  perm = λ w n. (w, 0 ∷ []);
  shuffle = λ w xs. (w, xs);
  is_blacklisted = λ t. some false;
  get_connection_info = λ w ns. (w, some (record { has_udp = true; has_tcp = true }));
  wire = λ p w ctx q ns recursive. (
    w + 1,
    record { result = some response; raw = tt; status = Status.no_error; failed = false },
  );
  validate = λ r layer raw ns trace. some (r, make_dnssec_result, trace);
}

abbrev pub resolver : Resolver ℕ
resolver = record {
  world = 0;
  cache = stocked;
  retries_remaining = 3;
  own_retries = none;
  pending_queries = [];
  should_validate_dnssec = false;
  last_used_external_name_server = none;
  is_closed = false;
}

-- the lookup of the question for which the cache has the answer
hit :
    (r' : Resolver ℕ) × (cached_lookup net cfg resolver 0 question name_server
        (codes ".")
        false
        false
        false
        []
      ≡ some (
        r',
        success
            (record (stored (build_cached_result 7 response)) { protocol = cached_protocol cfg })
            true
            [],
      ))
    × (r'.world ≡ 0)
    × IsValid test_hash r'.cache
unfolding is_valid_name_server to4 show_name_server
hit =
    cached_lookup_hit net cfg resolver 0 question name_server (codes ".") false false false []
      (build_cached_result 7 response) refl refl stocked-IsValid stocked-holds response-IsFresh
      response_kept

cached_lookup_hit_example :
    (r' : Resolver ℕ) × (cached_lookup net cfg resolver 0 question name_server
        (codes ".")
        false
        false
        false
        []
      ≡ some (
        r',
        success
            (record (stored (build_cached_result 7 response)) { protocol = cached_protocol cfg })
            true
            [],
      ))
    × (r'.world ≡ 0)
    × IsValid test_hash r'.cache
unfolding is_valid_name_server to4 show_name_server
cached_lookup_hit_example =
    cached_lookup_hit net cfg resolver 0 question name_server (codes ".") false false false []
      (build_cached_result 7 response) refl refl stocked-IsValid stocked-holds response-IsFresh
      response_kept

cached_lookup-Keeps_example : Keeps resolver hit.0
cached_lookup-Keeps_example =
    cached_lookup-Keeps net cfg resolver hit.0 0 question name_server (codes ".") false false false
      []
      (success (record (stored (build_cached_result 7 response)) { protocol = cached_protocol cfg })
        true [])
      refl hit.1

-- a name that the cache does not have
abbrev other : Text
other = codes "b.example.org"

abbrev call : CycleCall ℕ
call = record {
  ctx = 0;
  q = question;
  name_servers = name_server ∷ [];
  layer = codes ".";
  recursion_desired = false;
}

abbrev answered : Reply
answered =
    success (record (stored (build_cached_result 7 response)) { protocol = cached_protocol cfg })
      true []

-- A resolver with an empty cache of one shard, on a network that always fails: with two retries left, a
-- following lookup asks three times.
abbrev failing : Network ℕ ℕ Unit
failing = record net {
  wire = λ p w ctx q ns recursive.
      (w + 1, record { result = none; raw = tt; status = Status.serv_fail; failed = false });
}

abbrev missing_call : CycleCall ℕ
missing_call = record call { q = record question { name = other } }

abbrev empty_resolver : Resolver ℕ
empty_resolver = record {
  world = 0;
  cache = record {
    iterative_cache = record { shards = CacheHash.init 5 ∷ []; shards_len = 1 };
    stats = no_statistics;
  };
  retries_remaining = 2;
  own_retries = none;
  pending_queries = [];
  should_validate_dnssec = false;
  last_used_external_name_server = none;
  is_closed = false;
}

abbrev follow_call : FollowCall ℕ
follow_call = record {
  ctx = 0;
  q = question;
  name_servers = name_server ∷ [];
  is_iterative = false;
}

abbrev pub type_of_text : Text → ℕ
type_of_text t = 1

abbrev pub same_order : ℕ → ℕ → AnswerMap → AnswerMap
same_order i j m = m

abbrev pub same_dname_order : ℕ → AnswerMap → AnswerMap
same_dname_order i m = m

failed_run :
    (r' : Resolver ℕ) × (reply : Reply) × (following_lookup failing cfg type_of_text same_order
        same_dname_order follow_call empty_resolver
      ≡ some (r', reply))
unfolding following_lookup follow lookup follow_round cycling_lookup cycle
    get_random_non_queried_name_server first_unqueried is_seen show_name_server safe_status
    cached_lookup lookup_pending is_valid_name_server to4 ask_cache get_cached_results
    get_cached_result read_entry ShardedCacheHash.get get_shard put_shard get_shard_id CacheHash.get
    CacheHash.init increment_misses use_cached after_cache after_blacklist go_to_wire wire_udp
    wire_by dot_name has_suffix finish_wire accept_reply is_truncated is_status_retryable show_port
    decimal text_eq Question-discrete ℕ_discrete
failed_run = (_, _, refl)

following_lookup-retries_example : failed_run.0.retries_remaining ≤ 2
following_lookup-retries_example =
    following_lookup-retries failing cfg type_of_text same_order same_dname_order follow_call
      empty_resolver failed_run.0 failed_run.1 refl refl failed_run.2

-- what the records of the network lead to, and the servers that they name
abbrev Leads : AnyAnswer → Type 0
Leads = LeadsWell net.parse_ip type_of_text

-- the lookup of the PTR record of a domain name
abbrev ptr_question : Question
ptr_question = record question { type = type_ptr }
