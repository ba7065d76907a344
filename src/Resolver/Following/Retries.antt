-- ===== src/Resolver/Following/Retries.antt =====
-- `followingLookup` of src/zdns/lookup.go with an external resolver, and the retries.
use zdns.Prelude.{
  ℕ, zero, suc, ◌+◌, ◌≤◌, ◌≡◌, inl, inr, ◌∙◌, true, false, some, List, arith, Bool-cases,
  Option-cases, Text,
}
use zdns.Records.{Question, TraceStep}
use zdns.Records.NameServers.{NameServer}
use zdns.Lookup.Chains.{AnswerMap}
use zdns.Resolver.{Config, Resolver, Reply, Network}
use zdns.Resolver.Cycle.{CycleCall, cycling_lookup}
use zdns.Resolver.Cycle.Outcome.{cycling_lookup_lem}
use zdns.Resolver.Following.{
  FollowCall, FollowState, finished, continued, lookup, follow_round, follow, following_lookup,
}

module _ {W C M : Type 0} (net : Network W C M) (cfg : Config) where
  -- what an external lookup leaves
  abbrev Spends : Resolver W → Resolver W → Type 0
  Spends r r' =
      (r'.retries_remaining ≤ r.retries_remaining)
      × (r'.should_validate_dnssec ≡ r.should_validate_dnssec)

  lookup-Spends :
      (r r' : Resolver W) (ctx : C) (q : Question) (name_servers : List NameServer)
      (t : List TraceStep) (reply : Reply)
      → r.should_validate_dnssec ≡ false
      → lookup net cfg r ctx q name_servers false t ≡ some (r', reply)
      → Spends r r'
  unfolding lookup
  lookup-Spends r r' ctx q name_servers t reply off e =
      let asked = net.has_expired r.world ctx in
      let call : CycleCall C = record {
        ctx = ctx;
        q = q;
        name_servers = name_servers;
        layer = q.name;
        recursion_desired = true;
      } in
      let r0 : Resolver W = record r { world = asked.0 } in
      elim (Bool-cases asked.1) [
        | inl x ↦ ground arith
        | inr x ↦ elim (Option-cases (cycling_lookup net cfg call r0 t)) [
          | inl f ↦ absurd (ground arith)
          | inr ((r1, reply1), f) ↦
              let (le, _, kept) = cycling_lookup_lem net cfg call r0 r1 t reply1 off f in
              ground (arith, le, kept)
        ]
      ]

  module _ (string_to_type : Text → ℕ) (order : ℕ → ℕ → AnswerMap → AnswerMap)
      (dname_order : ℕ → AnswerMap → AnswerMap) where
    follow-Spends :
        (fuel i : ℕ) (call : FollowCall C) (s : FollowState) (r r' : Resolver W) (reply : Reply)
        → call.is_iterative ≡ false
        → r.should_validate_dnssec ≡ false
        → follow net cfg string_to_type order dname_order fuel i call s r ≡ some (r', reply)
        → Spends r r'
    unfolding follow
    follow-Spends zero i call s r r' reply ext off e = ground arith
    follow-Spends (suc fuel) i call s r r' reply ext off e =
        let q : Question = record call.q { name = s.curr_name } in
        elim (Option-cases (lookup net cfg r call.ctx q call.name_servers false s.trace)) [
          | inl f ↦ absurd (ground arith)
          | inr ((r1, reply1), f) ↦
              let (le, kept) =
                lookup-Spends r r1 call.ctx q call.name_servers s.trace reply1 off f in
              elim (Option-cases
                (follow_round net cfg string_to_type order dname_order call i s reply1)) [
                  | inl g ↦ absurd (ground arith)
                  | inr (finished done, g) ↦ ground (arith, le, kept)
                  | inr (continued s', g) ↦
                      let (le', kept') =
                        follow-Spends fuel (i + 1) call s' r1 r' reply ext (kept ∙ off)
                          (ground arith) in
                      (omega arith, kept' ∙ kept)
                ]
        ]

    -- Without the validation of DNSSEC, an external lookup that follows CNAMEs and DNAMEs and returns
    -- has not gained retries over all the names that it looked up.
    pub following_lookup-retries :
        (call : FollowCall C) (r r' : Resolver W) (reply : Reply)
        → call.is_iterative ≡ false
        → r.should_validate_dnssec ≡ false
        → following_lookup net cfg string_to_type order dname_order call r ≡ some (r', reply)
        → r'.retries_remaining ≤ r.retries_remaining
    unfolding following_lookup
    following_lookup-retries call r r' reply ext off e =
        (follow-Spends cfg.max_depth 0 call _ r r' reply ext off e).0
