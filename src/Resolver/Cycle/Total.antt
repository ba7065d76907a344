-- ===== src/Resolver/Cycle/Total.antt =====
-- When `cyclingLookup` of src/zdns/lookup.go returns, without the validation of DNSSEC.
use zdns.Prelude.{
  ℕ, zero, suc, ◌<◌, ◌≡◌, inl, inr, refl, Bool, Option, some, List, [], ◌∷◌, arith, Option-cases,
  length, get_elem?, Text,
}
use zdns.Records.{Question}
use zdns.Records.NameServers.{NameServer, show_name_server}
use zdns.Cache.Valid.{IsValid}
use zdns.Resolver.{Config, Resolver, Reply, Protocol, Network}
use zdns.Resolver.Wire.Total.{IsUnjudged}
use zdns.Resolver.Cycle.{first_unqueried, get_random_non_queried_name_server}

get_elem_below :
    {A : Type 0} (xs : List A) (i : ℕ) → i < length xs → (x : A) × (get_elem? xs i ≡ some x)
get_elem_below [] i lt = absurd (omega (arith, lt))
get_elem_below (x ∷ xs) zero lt = (x, refl)
get_elem_below (x ∷ xs) (suc i) lt = get_elem_below xs i (omega (arith, lt))

-- what `rand.Perm` gives, a permutation of the numbers below `n`, starts with one of them
abbrev pub StartsBelow : ℕ → List ℕ → Type 0
StartsBelow n is = (i : ℕ) × (js : List ℕ) × (is ≡ i ∷ js) × (i < n)

first_unqueried-fresh :
    (ip_string : List ℕ → Text) (servers : List NameServer) (is : List ℕ)
    → StartsBelow (length servers) is
    → (ns : NameServer) × (first_unqueried ip_string servers [] is ≡ some ns)
unfolding first_unqueried
first_unqueried-fresh ip_string servers is (i, js, e, lt) =
    let (ns, found) = get_elem_below servers i lt in (ns, rw (e, first_unqueried, found) refl)

module _ {W C M : Type 0} (net : Network W C M) (cfg : Config)
    (wire_unjudged : (p : Protocol) (w : W) (ctx : C) (q : Question) (ns : NameServer)
        (recursive : Bool)
      → IsUnjudged (net.wire p w ctx q ns recursive).1)
    (perm_starts : (w : W) (n : ℕ) → 0 < n → StartsBelow n (net.perm w n).1) where
  pub get_random_non_queried_name_server-some :
      (w : W) (servers : List NameServer) (queried : List Text)
      → 0 < length servers
      → (got : W × NameServer × List Text) × (get_random_non_queried_name_server net cfg w servers
            queried
          ≡ some got)
  unfolding get_random_non_queried_name_server
  get_random_non_queried_name_server-some w servers queried some_server =
      let (w1, order) = net.perm w (length servers) in
      let (w2, again) = net.perm w1 (length servers) in
      let (ns2, f) =
        first_unqueried-fresh net.ip_string servers again
          (perm_starts w1 (length servers) some_server) in
      elim (Option-cases (first_unqueried net.ip_string servers queried order)) [
        | inr (ns, e) ↦ (
          (w1, ns, show_name_server net.ip_string (some ns) ∷ queried),
          rw (get_random_non_queried_name_server, e) refl,
        )
        | inl e ↦ (
          (w2, ns2, show_name_server net.ip_string (some ns2) ∷ []),
          rw (get_random_non_queried_name_server, e, f) refl,
        )
      ]

  -- it returns, and the cache is then valid
  abbrev EndsValid : Option (Resolver W × Reply) → Type 0
  EndsValid m =
      (r' : Resolver W) × (reply : Reply) × (m ≡ some (r', reply)) × IsValid net.hash r'.cache
