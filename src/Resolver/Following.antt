-- ===== src/Resolver/Following.antt =====
-- `doDstServersLookup`, `lookup` and `followingLookup` of src/zdns/lookup.go: one name, and the names
-- that CNAMEs and DNAMEs lead to. `none` is a panic. `dns.ReverseAddr` (`none` for an error), the
-- regular expression of `IsStringValidDomainName`, `net.ParseIP`, `dns.StringToType` and the orders of
-- the ranges over maps are parameters.
pub mod Retries
pub mod Total
pub mod Panics
use zdns.Prelude.{
  ℕ, zero, suc, ◌+◌, ◌-◌, Bool, true, false, not, ◌&&◌, ◌||◌, Option, none, some, List, [], ◌∷◌,
  ◌++◌, ◌==◌, ◌>>=◌, if◌then◌else◌, Text, length, take,
}
use zdns.Names.{dot}
use zdns.Records.{
  Question, AnyAnswer, Status, SingleQueryResult, empty_result, TraceStep, safe_status, type_mx,
  type_ptr,
}
use zdns.Records.NameServers.{NameServer}
use zdns.Lookup.Chains.{
  AnswerMap, AnswerSets, answers_at, target_name, apply_dname, populate_results, is_lookup_complete,
}
use zdns.Cache.Build.{is_nil}
use zdns.Resolver.{Config, Resolver, LookupError, Reply, Network, failure, is_error}
use zdns.Resolver.Cycle.{CycleCall, cycling_lookup}
use zdns.Resolver.Iterate.{iterative_lookup}

-- what a call of `followingLookup` does not change
pub record FollowCall (C : Type 0) : Type 0 where
  pub ctx : C
  pub q : Question
  pub name_servers : List NameServer
  pub is_iterative : Bool

-- the state of the loop: the last good result and status, the maps, all answers and the current name
pub record FollowState : Type 0 where
  pub res : Option SingleQueryResult
  pub status : Status
  pub sets : AnswerSets
  pub all_answers : List AnyAnswer
  pub curr_name : Text
  pub trace : List TraceStep

-- what a round makes of the answer of a lookup: a reply, or a state to go on with
pub data Round : Type 0 where
  finished : Reply → Round
  continued : FollowState → Round

module _ {W C M : Type 0} (net : Network W C M) (cfg : Config) where
  -- the step of the trace for an external lookup
  abbrev external_step : Question → Reply → TraceStep
  external_step q reply =
      let res : SingleQueryResult = elim reply.result [ none ↦ empty_result | some r ↦ r ] in
      record {
        result = res;
        dns_type = q.type;
        dns_class = q.class;
        name = q.name;
        name_server = res.resolver;
        depth = 1;
        layer = q.name;
        cached = reply.is_cached;
        try = 0;
      }

  unfoldable pub lookup :
      Resolver W
      → C
      → Question
      → List NameServer
      → Bool
      → List TraceStep
      → Option (Resolver W × Reply)
  unfolding cycling_lookup iterative_lookup
  lookup r ctx q name_servers is_iterative trace =
      let (w, expired) = net.has_expired r.world ctx in
      let r0 : Resolver W = record r { world = w } in
      if expired
      then some (
        r0,
        record {
          result = none;
          is_cached = false;
          status = Status.timeout;
          trace = trace;
          error = none;
        },
      )
      else if is_iterative
      then iterative_lookup net cfg 1 r0 ctx q name_servers dot trace
      else (do
        (r', reply) ←
            cycling_lookup net cfg
              (record {
                ctx = ctx;
                q = q;
                name_servers = name_servers;
                layer = q.name;
                recursion_desired = true;
              })
              r0 trace
        some (r', record reply { trace = reply.trace ++ external_step q reply ∷ [] }))

  module _ (string_to_type : Text → ℕ) (order : ℕ → ℕ → AnswerMap → AnswerMap)
      (dname_order : ℕ → AnswerMap → AnswerMap) where
    -- the rest of round `i` after a good result
    unfoldable pub follow_result :
        FollowCall C → ℕ → FollowState → Reply → SingleQueryResult → Round
    unfolding populate_results is_lookup_complete answers_at target_name apply_dname
    follow_result call i s reply res =
        let sets = populate_results net.parse_ip string_to_type res.answers call.q.type s.sets in
        let all = s.all_answers ++ res.answers in
        let go_on : Text → Round = λ name. continued (record {
          res = some res;
          status = reply.status;
          sets = sets;
          all_answers = all;
          curr_name = name;
          trace = reply.trace;
        }) in
        if is_lookup_complete (order i) call.q.name sets
        then finished (record reply { result = some (record res { answers = all }); error = none })
        else elim (answers_at sets.cnames s.curr_name) [
          | a ∷ l ↦ go_on (target_name a)
          | [] ↦ elim (answers_at sets.garbage s.curr_name) [
            | a ∷ l ↦ finished (record {
              result = none;
              is_cached = false;
              status = Status.error;
              trace = reply.trace;
              error = some LookupError.unexpected_record;
            })
            | [] ↦ elim (apply_dname (dname_order i sets.dnames) s.curr_name) [
              | some name ↦ go_on name
              | none ↦ finished (record reply { result = some res; error = none })
            ]
          ]
        ]

    -- Round `i`: an error returns the last good result, if there is one. `none` is a panic.
    unfoldable pub follow_round : FollowCall C → ℕ → FollowState → Reply → Option Round
    unfolding follow_result safe_status
    follow_round call i s reply =
        if not (safe_status reply.status) || is_error reply.error
        then (if i == 0
            then some (finished reply)
            else some (finished (record reply { result = s.res; status = s.status })))
        else if call.q.type == type_mx
        then some (finished reply)
        else elim reply.result [ none ↦ none | some res ↦ some (follow_result call i s reply res) ]

    unfoldable pub follow :
        ℕ → ℕ → FollowCall C → FollowState → Resolver W → Option (Resolver W × Reply)
    unfolding lookup follow_round
    follow zero i call s r = some (
      r,
      record {
        result = none;
        is_cached = false;
        status = Status.serv_fail;
        trace = s.trace;
        error = some LookupError.max_depth_reached;
      },
    )
    follow (suc fuel) i call s r = do
      (r', reply) ←
          lookup r call.ctx (record call.q { name = s.curr_name }) call.name_servers
            call.is_iterative s.trace
      round ← follow_round call i s reply
      elim round [
        | finished reply' ↦ some (r', reply')
        | continued s' ↦ follow fuel (i + 1) call s' r'
      ]

    unfoldable pub following_lookup : FollowCall C → Resolver W → Option (Resolver W × Reply)
    unfolding follow
    following_lookup call r =
        follow cfg.max_depth 0 call
          (record {
            res = none;
            status = Status.other [];
            sets = record { candidates = []; cnames = []; dnames = []; garbage = [] };
            all_answers = [];
            curr_name = call.q.name;
            trace = [];
          })
          r

    module _ (reverse_addr : Text → Option Text) (is_valid_domain_name : Text → Bool) where
      -- The name of a PTR question, without the last byte of what `ReverseAddr` returns. The inner
      -- `none` is the error; the outer one the panic on an empty text, which is what it returns with
      -- an error.
      unfoldable pub ptr_name : Text → Option (Option Text)
      ptr_name name = elim (reverse_addr name) [
        | none ↦ if is_valid_domain_name name then none else some none
        | some qname ↦ if is_nil qname then none else some (some (take (length qname - 1) qname))
      ]

      -- the question that is asked for, as in `ptr_name`
      unfoldable pub asked_question : Question → Option (Option Question)
      unfolding ptr_name
      asked_question q =
          if q.type == type_ptr
          then (do
            name ← ptr_name q.name
            elim name [ none ↦ some none | some n ↦ some (some (record q { name = n })) ])
          else some (some q)

      unfoldable pub do_dst_servers_lookup :
          Resolver W → C → Question → List NameServer → Bool → Option (Resolver W × Reply)
      unfolding asked_question following_lookup lookup
      do_dst_servers_lookup r ctx q name_servers is_iterative =
          let refused : LookupError → Reply = λ e. record {
            result = none;
            is_cached = false;
            status = Status.illegal_input;
            trace = [];
            error = some e;
          } in
          let r0 : Resolver W = record r { retries_remaining = cfg.retries; own_retries = none } in
          if is_nil name_servers then some (r, refused LookupError.no_name_server) else (do
            asked ← asked_question q
            elim asked [
              | none ↦ some (r, refused LookupError.invalid_name)
              | some q' ↦
                  if cfg.follow_cnames
                  then following_lookup
                      (record {
                        ctx = ctx;
                        q = q';
                        name_servers = name_servers;
                        is_iterative = is_iterative;
                      })
                      r0
                  else (do
                    (r', reply) ← lookup r0 ctx q' name_servers is_iterative []
                    some (r', if is_error reply.error then record reply { trace = [] } else reply))
            ])
