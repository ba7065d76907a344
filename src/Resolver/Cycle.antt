-- ===== src/Resolver/Cycle.antt =====
-- `cyclingLookup` and `getRandomNonQueriedNameServer` of src/zdns/lookup.go: one lookup after the other
-- at name servers that were not asked yet, as long as there are retries. `none` is a panic.
pub mod Outcome
pub mod Total
use zdns.Prelude.{
  ℕ, zero, suc, ◌+◌, ◌-◌, Bool, true, false, not, ◌&&◌, ◌||◌, Option, none, some, List, [], ◌∷◌,
  ◌==◌, ◌>>=◌, if◌then◌else◌, length, get_elem?, Text, text_eq,
}
use zdns.Records.{Question, Status, TraceStep, safe_status, is_status_retryable}
use zdns.Records.NameServers.{NameServer, show_name_server}
use zdns.Lookup.Glue.{is_seen}
use zdns.Resolver.{Config, Resolver, LookupError, Reply, Network, failure}
use zdns.Resolver.Cached.{cached_lookup}

-- the first name server in the order of a permutation that was not asked yet
unfoldable pub first_unqueried :
    (List ℕ → Text) → List NameServer → List Text → List ℕ → Option NameServer
unfolding is_seen show_name_server
first_unqueried ip_string servers queried [] = none
first_unqueried ip_string servers queried (i ∷ is) =
    let rest = first_unqueried ip_string servers queried is in
    elim (get_elem? servers i) [
      | none ↦ rest
      | some ns ↦ if is_seen queried (show_name_server ip_string (some ns)) then rest else some ns
    ]

-- the arguments of a call
pub record CycleCall (C : Type 0) : Type 0 where
  pub ctx : C
  pub q : Question
  pub name_servers : List NameServer
  pub layer : Text
  pub recursion_desired : Bool

module _ {W C M : Type 0} (net : Network W C M) (cfg : Config) where
  -- If all were asked, the map is emptied and the search starts again. It finds none if there is no
  -- name server, where the Go function calls itself without end.
  unfoldable pub get_random_non_queried_name_server :
      W → List NameServer → List Text → Option (W × NameServer × List Text)
  unfolding first_unqueried show_name_server
  get_random_non_queried_name_server w servers queried =
      let (w1, order) = net.perm w (length servers) in
      let (w2, again) = net.perm w1 (length servers) in
      elim (first_unqueried net.ip_string servers queried order) [
        | some ns ↦ some (w1, ns, show_name_server net.ip_string (some ns) ∷ queried)
        | none ↦ elim (first_unqueried net.ip_string servers [] again) [
          | some ns ↦ some (w2, ns, show_name_server net.ip_string (some ns) ∷ [])
          | none ↦ none
        ]
      ]

  -- whether the cache is asked for one name server only, and takes answers without authority
  abbrev pub is_direct : CycleCall C → Bool
  is_direct call = call.recursion_desired || cfg.lookup_all_name_servers

  -- one round: what is returned, or a state to go on with
  unfoldable pub cycle :
      ℕ → CycleCall C → Resolver W → List Text → List TraceStep → Option (Resolver W × Reply)
  unfolding get_random_non_queried_name_server cached_lookup safe_status is_status_retryable
  cycle zero call r queried trace =
      some (r, failure Status.error trace (some LookupError.did_not_exit))
  cycle (suc fuel) call r queried trace =
      let (w, expired) = net.has_expired r.world call.ctx in
      if expired then some (record r { world = w }, failure Status.timeout trace none) else (do
        (w', ns, queried') ← get_random_non_queried_name_server w call.name_servers queried
        (r', reply) ←
            cached_lookup net cfg (record r { world = w' }) call.ctx call.q ns call.layer
              call.recursion_desired (is_direct call) (is_direct call) trace
        (let rest =
              cycle fuel call (record r' { retries_remaining = r'.retries_remaining - 1 }) queried'
                reply.trace in
            if safe_status reply.status
            then some (r', reply)
            else if r'.retries_remaining == 0
            then some (r', record reply { error = some LookupError.out_of_retries })
            else if not (is_status_retryable reply.status)
            then some (r', reply)
            else rest))

  -- Each round but the last uses a retry, so there is one round more than retries.
  unfoldable pub cycling_lookup :
      CycleCall C → Resolver W → List TraceStep → Option (Resolver W × Reply)
  unfolding cycle
  cycling_lookup call r trace = cycle (r.retries_remaining + 1) call r [] trace
