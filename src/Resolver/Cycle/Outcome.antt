-- ===== src/Resolver/Cycle/Outcome.antt =====
-- How `cyclingLookup` of src/zdns/lookup.go ends, without the validation of DNSSEC.
use zdns.Prelude.{
  ℕ, zero, suc, ◌+◌, ◌-◌, ◌≤◌, ◌<◌, ◌≡◌, ◌≢◌, ◌⊎◌, inl, inr, ◌∙◌, true, false, not, Option, some,
  List, [], arith, Bool-cases, Option-cases, if◌then◌else◌, ◌==◌, Text,
}
use zdns.Records.{Status, TraceStep, safe_status, is_status_retryable}
use zdns.Resolver.{Config, Resolver, LookupError, Reply, Network}
use zdns.Resolver.Cached.{cached_lookup}
use zdns.Resolver.Cached.Frame.{cached_lookup-Keeps}
use zdns.Resolver.Cycle.{
  CycleCall, get_random_non_queried_name_server, is_direct, cycle, cycling_lookup,
}

-- The four ways to end: the time is over, a success, no retries left, a status that is not retried.
abbrev pub IsOutcome : {W : Type 0} → Resolver W → Reply → Type 0
IsOutcome r reply =
    (reply.status ≡ Status.timeout)
    ⊎ (safe_status reply.status ≡ true)
    ⊎ ((r.retries_remaining ≡ 0) × (reply.error ≡ some LookupError.out_of_retries))
    ⊎ (is_status_retryable reply.status ≡ false)

-- what follows the lookup of a round, with `rest` for the rounds after it
abbrev pub end_round :
    {W : Type 0} → Resolver W → Reply → Option (Resolver W × Reply) → Option (Resolver W × Reply)
end_round r reply rest =
    if safe_status reply.status
    then some (r, reply)
    else if r.retries_remaining == 0
    then some (r, record reply { error = some LookupError.out_of_retries })
    else if not (is_status_retryable reply.status)
    then some (r, reply)
    else rest

end_round_lem :
    {W : Type 0} (r r' : Resolver W) (reply reply' : Reply) (rest : Option (Resolver W × Reply))
    → (r.retries_remaining ≢ 0
        → rest ≡ some (r', reply')
        → (r'.retries_remaining ≤ r.retries_remaining - 1)
          × IsOutcome r' reply'
          × (r'.should_validate_dnssec ≡ r.should_validate_dnssec))
    → end_round r reply rest ≡ some (r', reply')
    → (r'.retries_remaining ≤ r.retries_remaining)
      × IsOutcome r' reply'
      × (r'.should_validate_dnssec ≡ r.should_validate_dnssec)
end_round_lem r r' reply reply' rest next e = elim (Bool-cases (safe_status reply.status)) [
  | inl s ↦ ground arith
  | inr s ↦ elim (Bool-cases (r.retries_remaining == 0)) [
    | inl z ↦ ground arith
    | inr z ↦ elim (Bool-cases (is_status_retryable reply.status)) [
      | inr n ↦ ground arith
      | inl y ↦ let (le, out, kept) = next (ground arith) (ground arith) in (omega arith, out, kept)
    ]
  ]
]

module _ {W C M : Type 0} (net : Network W C M) (cfg : Config) (call : CycleCall C) where
  cycle_lem :
      (fuel : ℕ) (r r' : Resolver W) (queried : List Text) (t : List TraceStep) (reply : Reply)
      → r.should_validate_dnssec ≡ false
      → r.retries_remaining < fuel
      → cycle net cfg fuel call r queried t ≡ some (r', reply)
      → (r'.retries_remaining ≤ r.retries_remaining)
        × IsOutcome r' reply
        × (r'.should_validate_dnssec ≡ r.should_validate_dnssec)
  unfolding cycle
  cycle_lem zero r r' queried t reply off lt e = absurd (omega arith)
  cycle_lem (suc fuel) r r' queried t reply off lt e =
      let w = (net.has_expired r.world call.ctx).0 in
      elim (Bool-cases (net.has_expired r.world call.ctx).1) [
        | inl x ↦ ground arith
        | inr x ↦
            elim (Option-cases
              (get_random_non_queried_name_server net cfg w call.name_servers queried)) [
                | inl f ↦ absurd (ground arith)
                | inr ((w', ns, queried'), f) ↦
                    elim (Option-cases (
                      cached_lookup net cfg (record r { world = w' }) call.ctx call.q ns call.layer
                        call.recursion_desired (is_direct net cfg call) (is_direct net cfg call)
                        t)) [
                          | inl g ↦ absurd (ground arith)
                          | inr ((r1, reply1), g) ↦
                              let (same, off', _) =
                                cached_lookup-Keeps net cfg (record r { world = w' }) r1 call.ctx
                                  call.q ns call.layer call.recursion_desired
                                  (is_direct net cfg call) (is_direct net cfg call) t reply1 off
                                  g in
                              let (le, out, kept) =
                                end_round_lem r1 r' reply1 reply
                                  (cycle net cfg fuel call
                                    (record r1 { retries_remaining = r1.retries_remaining - 1 })
                                    queried' reply1.trace)
                                  (λ ne h.
                                    cycle_lem fuel
                                      (record r1 { retries_remaining = r1.retries_remaining - 1 })
                                      r' queried' reply1.trace reply (off' ∙ off) (omega arith) h)
                                  (ground arith) in
                              (omega arith, out, kept ∙ off')
                        ]
              ]
      ]

  pub cycling_lookup_lem :
      (r r' : Resolver W) (t : List TraceStep) (reply : Reply)
      → r.should_validate_dnssec ≡ false
      → cycling_lookup net cfg call r t ≡ some (r', reply)
      → (r'.retries_remaining ≤ r.retries_remaining)
        × IsOutcome r' reply
        × (r'.should_validate_dnssec ≡ r.should_validate_dnssec)
  unfolding cycling_lookup
  cycling_lookup_lem r r' t reply off e =
      cycle_lem (r.retries_remaining + 1) r r' [] t reply off (omega arith) e
