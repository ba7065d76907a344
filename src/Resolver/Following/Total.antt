-- ===== src/Resolver/Following/Total.antt =====
-- When `doDstServersLookup` of src/zdns/lookup.go returns, without the validation of DNSSEC.
use zdns.Prelude.{
  All, ℕ, zero, suc, ◌+◌, ◌<◌, ◌≡◌, inl, inr, refl, Bool, true, false, not, ◌||◌, Option, none,
  some, List, [], ◌∷◌, ◌++◌, arith, Bool-cases, Option-cases, List-cases, ◌==◌, length, Text,
}
use mathlib.Core.Path.{subst}
use zdns.Names.{dot, IsDottable}
use zdns.Cache.Kept.{IsGoodResult}
use zdns.Lookup.Chains.Targets.{
  IsPlain, IsPlain-IsDottable, AreSetsAimed, LeadsWell, cname-IsPlain, apply_dname-IsPlain,
  populate_results-aimed,
}
use zdns.Resolver.Iterate.Extracts.{IsServerNamed}
use zdns.Records.{
  Answer, AnyAnswer, Question, Status, SingleQueryResult, TraceStep, safe_status, type_mx,
}
use zdns.Records.NameServers.{NameServer}
use zdns.Lookup.Chains.{AnswerMap, answers_at, apply_dname, populate_results, is_lookup_complete}
use zdns.Resolver.{Config, Resolver, LookupError, Reply, Network, is_error}
use zdns.Resolver.Cached.Frame.{is_answered}
use zdns.Resolver.Cycle.{CycleCall}
use zdns.Resolver.Settled.{IsSound, Settled, Settles, IsAnswer, cycling_lookup-Settles}
use zdns.Resolver.Iterate.Total.{iterative_lookup-Settles}
use zdns.Resolver.Following.{
  FollowCall, FollowState, Round, finished, continued, external_step, lookup, follow_result,
  follow_round, follow, following_lookup, asked_question, do_dst_servers_lookup,
}

module _ {W C M : Type 0} (net : Network W C M) (cfg : Config) (string_to_type : Text → ℕ)
    (sound : IsSound (LeadsWell net.parse_ip string_to_type) IsServerNamed net) (b : Bool)
    (some_root : 0 < length cfg.root_name_servers) where
  -- a CNAME or DNAME leads to a name that can be asked for
  abbrev P : AnyAnswer → Type 0
  P = LeadsWell net.parse_ip string_to_type

  -- A lookup returns a settled resolver and a reply, which has a result if it says success.
  abbrev pub Ends : Option (Resolver W × Reply) → Type 0
  Ends m =
      (r' : Resolver W) × (reply : Reply) × (m ≡ some (r', reply))
      × Settled P IsServerNamed net b r'
      × (is_answered reply ≡ true)

  lookup-Settles :
      (r : Resolver W) (ctx : C) (q : Question) (servers : List NameServer) (is_iterative : Bool)
      (t : List TraceStep)
      → 0 < length servers
      → IsDottable q.name
      → Settled P IsServerNamed net b r
      → Settles P IsServerNamed net b (lookup net cfg r ctx q servers is_iterative t)
  unfolding lookup
  lookup-Settles r ctx q servers is_iterative t some_server dottable s =
      let (w, expired) = net.has_expired r.world ctx in
      let r0 : Resolver W = record r { world = w } in
      elim (Bool-cases expired) [
        | inl x ↦ (
          r0,
          record {
            result = none;
            is_cached = false;
            status = Status.timeout;
            trace = t;
            error = none;
          },
          rw (lookup, x) refl,
          s,
          (refl, tt),
        )
        | inr x ↦ elim (Bool-cases is_iterative) [
          | inl i ↦
              let (r', reply, e, s', a) =
                iterative_lookup-Settles P net cfg sound b some_root 1 r0 ctx q servers dot t
                  some_server dottable s in
              (r', reply, rw (lookup, x, i) e, s', a)
          | inr i ↦
              let call : CycleCall C = record {
                ctx = ctx;
                q = q;
                name_servers = servers;
                layer = q.name;
                recursion_desired = true;
              } in
              let (r', reply, e, s', a) =
                cycling_lookup-Settles P IsServerNamed net cfg sound b call some_server dottable r0
                  t s in
              (
                r',
                record reply { trace = reply.trace ++ external_step net cfg q reply ∷ [] },
                rw (lookup, x, i, e) refl,
                s',
                a,
              )
        ]
      ]

  module _ (order : ℕ → ℕ → AnswerMap → AnswerMap) (dname_order : ℕ → AnswerMap → AnswerMap)
      (reordered : (R : Text × List Answer → Type 0) (i : ℕ) (m : AnswerMap)
        → All R m
        → All R (dname_order i m)) where
    -- what was good so far has a result, from the first round on, and the names to follow can be asked
    -- for
    abbrev IsGoodState : ℕ → FollowState → Type 0
    IsGoodState i s =
        ((i == 0 || not (safe_status s.status) || elim s.res [ none ↦ false | some x ↦ true ])
          ≡ true)
        × IsPlain s.curr_name
        × AreSetsAimed net.parse_ip string_to_type s.sets

    IsFine : ℕ → Round → Type 0
    IsFine i (finished reply) = is_answered reply ≡ true
    IsFine i (continued s) = IsGoodState (i + 1) s

    follow_result-IsFine :
        (call : FollowCall C) (i : ℕ) (s : FollowState) (reply : Reply) (res : SingleQueryResult)
        → IsGoodState i s
        → All P res.answers
        → IsFine i (follow_result net cfg string_to_type order dname_order call i s reply res)
    unfolding follow_result IsFine safe_status
    follow_result-IsFine call i s reply res (_, plain, aimed) leads =
        let sets = populate_results net.parse_ip string_to_type res.answers call.q.type s.sets in
        let aimed' : AreSetsAimed net.parse_ip string_to_type sets =
          populate_results-aimed net.parse_ip string_to_type res.answers call.q.type s.sets leads
            aimed in
        elim (Bool-cases (is_lookup_complete (order i) call.q.name sets)) [
          | inl c ↦ rw (follow_result, c) (ground arith)
          | inr c ↦ elim (List-cases (answers_at sets.cnames s.curr_name)) [
            | inr (a, l, d) ↦
                rw (follow_result, c, d)
                  (ground arith, cname-IsPlain sets.cnames s.curr_name a l aimed'.0 d, aimed')
            | inl d ↦ elim (List-cases (answers_at sets.garbage s.curr_name)) [
              | inr (a, l, e) ↦ rw (follow_result, c, d, e) refl
              | inl e ↦ elim (Option-cases (apply_dname (dname_order i sets.dnames) s.curr_name)) [
                | inr (name, f) ↦
                    rw (follow_result, c, d, e, f)
                      (
                        ground arith,
                        apply_dname-IsPlain (dname_order i sets.dnames) s.curr_name name
                            (reordered _ i sets.dnames aimed'.1) plain f,
                        aimed',
                      )
                | inl f ↦ rw (follow_result, c, d, e, f) (ground arith)
              ]
            ]
          ]
        ]

    follow_round-IsFine :
        (call : FollowCall C) (i : ℕ) (s : FollowState) (reply : Reply)
        → IsGoodState i s
        → IsAnswer P IsServerNamed reply
        → (round : Round) × (follow_round net cfg string_to_type order dname_order call i s reply
            ≡ some round)
          × IsFine i round
    unfolding follow_round IsFine
    follow_round-IsFine call i s reply good (a, leads) =
        elim (Bool-cases (not (safe_status reply.status) || is_error reply.error)) [
          | inl x ↦ elim (Bool-cases (i == 0)) [
            | inl z ↦ (finished reply, rw (follow_round, x, z) refl, a)
            | inr z ↦ (
              finished (record reply { result = s.res; status = s.status }),
              rw (follow_round, x, z) refl,
              ground (arith, good.0, z),
            )
          ]
          | inr x ↦ elim (Bool-cases (call.q.type == type_mx)) [
            | inl y ↦ (finished reply, rw (follow_round, x, y) refl, a)
            | inr y ↦ elim (Option-cases reply.result) [
              | inl e ↦ absurd (ground (arith, a, e, x))
              | inr (res, e) ↦ (
                follow_result net cfg string_to_type order dname_order call i s reply res,
                ground (arith, x, y, e),
                follow_result-IsFine call i s reply res good
                    (subst (IsGoodResult P IsServerNamed) e leads).0,
              )
            ]
          ]
        ]

    round-Ends :
        (fuel i : ℕ) (call : FollowCall C) (s : FollowState) (r r1 : Resolver W) (reply : Reply)
        (round : Round)
        → lookup net cfg r call.ctx
            (record call.q { name = s.curr_name })
            call.name_servers
            call.is_iterative
            s.trace
          ≡ some (r1, reply)
        → follow_round net cfg string_to_type order dname_order call i s reply ≡ some round
        → IsFine i round
        → Settled P IsServerNamed net b r1
        → ((s' : FollowState)
            → IsGoodState (i + 1) s'
            → Ends (follow net cfg string_to_type order dname_order fuel (i + 1) call s' r1))
        → Ends (follow net cfg string_to_type order dname_order (suc fuel) i call s r)
    unfolding follow IsFine
    round-Ends fuel i call s r r1 reply (finished reply') e f fine settled later =
        (r1, reply', rw (follow, e, f) refl, settled, fine)
    round-Ends fuel i call s r r1 reply (continued s') e f fine settled later =
        let (r2, reply2, g, settled2, a2) = later s' fine in
        (r2, reply2, rw (follow, e, f) g, settled2, a2)

    follow-Ends :
        (fuel i : ℕ) (call : FollowCall C) (s : FollowState) (r : Resolver W)
        → 0 < length call.name_servers
        → IsGoodState i s
        → Settled P IsServerNamed net b r
        → Ends (follow net cfg string_to_type order dname_order fuel i call s r)
    unfolding follow
    follow-Ends zero i call s r some_server good settled = (r, _, refl, settled, refl)
    follow-Ends (suc fuel) i call s r some_server good settled =
        let (r1, reply, e, settled1, a) =
          lookup-Settles r call.ctx (record call.q { name = s.curr_name }) call.name_servers
            call.is_iterative s.trace some_server (IsPlain-IsDottable s.curr_name good.1) settled in
        let (round, f, fine) = follow_round-IsFine call i s reply good a in
        round-Ends fuel i call s r r1 reply round e f fine settled1
          (λ s' good'. follow-Ends fuel (i + 1) call s' r1 some_server good' settled1)

    pub following_lookup-Ends :
        (call : FollowCall C) (r : Resolver W)
        → 0 < length call.name_servers
        → IsPlain call.q.name
        → Settled P IsServerNamed net b r
        → Ends (following_lookup net cfg string_to_type order dname_order call r)
    unfolding following_lookup
    following_lookup-Ends call r some_server plain s =
        follow-Ends cfg.max_depth 0 call _ r some_server (refl, plain, (tt, tt)) s

    module _ (reverse_addr : Text → Option Text) (is_valid_domain_name : Text → Bool) where
      refused-Ends :
          (r : Resolver W) (error : LookupError)
          → Settled P IsServerNamed net b r
          → Ends (
              some (
                r,
                record {
                  result = none;
                  is_cached = false;
                  status = Status.illegal_input;
                  trace = [];
                  error = some error;
                },
              ))
      unfolding safe_status
      refused-Ends r error s = (r, _, refl, s, refl)

      -- the lookup of the name that is asked for
      pub do_dst_servers_lookup-Ends :
          (r : Resolver W) (ctx : C) (q : Question) (servers : List NameServer)
          (is_iterative : Bool) (asked : Option Question)
          → asked_question net cfg string_to_type order dname_order reverse_addr
              is_valid_domain_name q
            ≡ some asked
          → ((q' : Question) → asked ≡ some q' → IsPlain q'.name)
          → Settled P IsServerNamed net b r
          → Ends (
              do_dst_servers_lookup net cfg string_to_type order dname_order reverse_addr
                is_valid_domain_name r ctx q servers is_iterative)
      unfolding do_dst_servers_lookup
      do_dst_servers_lookup-Ends r ctx q servers is_iterative asked k plain s =
          let r0 : Resolver W = record r { retries_remaining = cfg.retries; own_retries = none } in
          elim (List-cases servers) [
            | inl e ↦ rw (do_dst_servers_lookup, e) (refused-Ends r LookupError.no_name_server s)
            | inr (ns, more, e) ↦
                let some_server : 0 < length servers = rw e (omega arith) in
                elim (Option-cases asked) [
                  | inl j ↦
                      rw (do_dst_servers_lookup, e, k, j)
                        (refused-Ends r LookupError.invalid_name s)
                  | inr (q', j) ↦ elim (Bool-cases cfg.follow_cnames) [
                    | inl f ↦
                        let (r', reply, g, s', a) =
                          following_lookup-Ends
                            (record {
                              ctx = ctx;
                              q = q';
                              name_servers = servers;
                              is_iterative = is_iterative;
                            })
                            r0 some_server (plain q' j) s in
                        (r', reply, ground (arith, e, k, j, f, g), s', a)
                    | inr f ↦
                        let (r', reply, g, s', a) =
                          lookup-Settles r0 ctx q' servers is_iterative [] some_server
                            (IsPlain-IsDottable q'.name (plain q' j)) s in
                        elim (Bool-cases (is_error reply.error)) [
                          | inl x ↦ (
                            r',
                            record reply { trace = [] },
                            ground (arith, e, k, j, f, g, x),
                            s',
                            a.0,
                          )
                          | inr x ↦ (r', reply, ground (arith, e, k, j, f, g, x), s', a.0)
                        ]
                  ]
                ]
          ]
