-- ===== src/Resolver/Iterate.antt =====
-- `iterativeLookup` of src/zdns/lookup.go: the descent from the root. The lookup one level deeper is
-- an argument of each step, and the whole is recursive on fuel, which bounds the depth. `none` is a
-- panic, or the end of the fuel.
pub mod Depth
pub mod Extracts
pub mod Total
use zdns.Prelude.{
  ℕ, zero, suc, ◌+◌, ◌-◌, Bool, true, false, not, ◌&&◌, ◌||◌, Option, none, some, List, [], ◌∷◌,
  ◌++◌, ◌==◌, ltb, ◌>>=◌, if◌then◌else◌, Text, codes, text_eq, trim_suffix,
}
use zdns.Names.{dot, name_is_beneath}
use zdns.Records.{
  Question, Answer, AnyAnswer, typed, Kind, as_answer, Status, SingleQueryResult, TraceStep,
  safe_status, is_status_answer, type_a, type_aaaa, type_ds, class_inet,
}
use zdns.Records.NameServers.{
  NameServer, IpVersionMode, IterationIpPreference, populate_default_port,
}
use zdns.Lookup.Glue.{check_glue}
use zdns.Cache.Build.{is_nil}
use zdns.Resolver.{Config, Resolver, LookupError, Reply, Network, failure}
use zdns.Resolver.Cycle.{CycleCall, cycling_lookup}
use zdns.Resolver.Authorities.{Deeper, iterate_on_authorities}

unfoldable pub is_timeout : Status → Bool
is_timeout Status.timeout = true
is_timeout _ = false

-- Answers leave the other sections out, but for a question of type DS.
unfoldable pub drop_sections : Question → SingleQueryResult → SingleQueryResult
drop_sections q res =
    if not (is_nil res.answers) && not (q.type == type_ds)
    then record res { authorities = []; additionals = [] }
    else res

module _ {W C M : Type 0} (net : Network W C M) (cfg : Config) where
  -- `getTryNumber`; the retries that remain are at most those of the configuration
  abbrev pub get_try_number : ℕ → ℕ → ℕ
  get_try_number total_retries retries_remaining = (total_retries + 1) - retries_remaining

  -- the step of the trace for a successful lookup with a result
  unfoldable pub add_step : Question → Text → ℕ → ℕ → Reply → List TraceStep
  unfolding safe_status
  add_step q layer depth retries_remaining reply = elim reply.result [
    | none ↦ reply.trace
    | some res ↦
        if safe_status reply.status
        then reply.trace
          ++ record {
            result = res;
            dns_type = q.type;
            dns_class = q.class;
            name = q.name;
            name_server = res.resolver;
            depth = depth;
            layer = layer;
            cached = reply.is_cached;
            try = get_try_number cfg.retries retries_remaining;
          }
            ∷ []
        else reply.trace
  ]

  -- A timeout of the step alone becomes an iterative timeout.
  unfoldable pub tell_timeouts : W → C → C → Status → W × Status
  unfolding is_timeout
  tell_timeouts w step_ctx ctx status =
      let (w1, step_expired) = net.has_expired w step_ctx in
      let (w2, all_expired) = net.has_expired w1 ctx in
      if is_timeout status
      then (if step_expired
          then (w2, if all_expired then status else Status.iter_timeout)
          else (w1, status))
      else (w, status)

  -- what is done with the reply of the lookup at a layer
  unfoldable pub follow_reply :
      Deeper W C → Resolver W → C → Question → Text → Reply → Option (Resolver W × Reply)
  unfolding drop_sections iterate_on_authorities safe_status
  follow_reply deeper r ctx q layer reply =
      if not (safe_status reply.status) then some (r, reply) else elim reply.error [
        | some e ↦ some (r, reply)
        | none ↦ elim reply.result [
          | none ↦ none
          | some res ↦
              if not (is_nil res.answers) || res.flags.authoritative
              then some (r, record reply { result = some (drop_sections q res) })
              else if not (is_nil res.authorities)
              then iterate_on_authorities net cfg deeper r ctx q res layer reply.trace
              else some (
                r,
                record reply {
                  status = Status.error;
                  error = some LookupError.no_answers_or_authorities;
                },
              )
        ]
      ]

  -- one level of `iterativeLookup`
  unfoldable pub iterate_step :
      Deeper W C
      → ℕ
      → Resolver W
      → C
      → Question
      → List NameServer
      → Text
      → List TraceStep
      → Option (Resolver W × Reply)
  unfolding cycling_lookup add_step tell_timeouts follow_reply
  iterate_step deeper depth r ctx q servers layer trace =
      if ltb cfg.max_depth depth
      then some (
        r,
        record {
          result = none;
          is_cached = false;
          status = Status.error;
          trace = trace;
          error = some LookupError.max_depth_reached;
        },
      )
      else let (w, expired) = net.has_expired r.world ctx in
        if expired
        then some (
          record r { world = w },
          record {
            result = none;
            is_cached = false;
            status = Status.timeout;
            trace = trace;
            error = none;
          },
        )
        else let (w', step_ctx) = net.with_timeout w ctx cfg.iterative_timeout in
          (do
            (r', reply) ←
                cycling_lookup net cfg
                  (record {
                    ctx = step_ctx;
                    q = q;
                    name_servers = servers;
                    layer = layer;
                    recursion_desired = false;
                  })
                  (record r { world = w' }) trace
            (let trace' = add_step q layer depth r'.retries_remaining reply in
                let (w'', status) = tell_timeouts r'.world step_ctx ctx reply.status in
                follow_reply deeper (record r' { world = w'' }) ctx q layer
                  (record reply { status = status; trace = trace' })))

  -- on fuel; the depth counts up and the fuel down
  unfoldable pub iterate_from : ℕ → ℕ → Deeper W C
  unfolding iterate_step
  iterate_from zero depth = λ r ctx q servers layer trace. none
  iterate_from (suc fuel) depth = iterate_step (iterate_from fuel (depth + 1)) depth

  -- enough fuel for every depth
  unfoldable pub iterative_lookup : ℕ → Deeper W C
  unfolding iterate_from
  iterative_lookup depth = iterate_from (suc (suc cfg.max_depth)) depth
