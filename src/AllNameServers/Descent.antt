-- ===== src/AllNameServers/Descent.antt =====
-- What `LookupAllNameserversIterative` of src/zdns/lookup.go returns.
use zdns.Prelude.{ℕ, ◌≡◌, ◌⊎◌, Option, some, Text}
use zdns.Records.{Question, Status}
use zdns.Lookup.Servers.{ServerMap}
use zdns.Lookup.Servers.Groups.{Reorders}
use zdns.Resolver.{Config, Resolver, Network}
use zdns.Resolver.External.{Lookups}
use zdns.AllNameServers.{Layers, AllReply}
use zdns.AllNameServers.Extract.{Orders}
use zdns.AllNameServers.Reliable.{IsReliable}
use zdns.AllNameServers.Rounds.{Ended, for_ns, AreLayers}

module _ {W C M : Type 0} (net : Network W C M) (cfg : Config) (lookups : Lookups W C)
    (type_to_string : ℕ → Text) where
  module _ (ctx : C) (q : Question) where
    module _ (server_order : ℕ → ServerMap → ServerMap) (orders : ℕ → Orders)
        (reordered : (i : ℕ) (m : ServerMap) → Reorders m (server_order i m))
        {Usable : Resolver W → Type 0} {Asks : Question → Type 0}
        (reliable : IsReliable cfg Usable Asks lookups) (asks : Asks q) where
      -- it returns, the resolver can be used after it, and what it returns is as told
      abbrev Gives : {A : Type 0} → (A → Type 0) → Option (Resolver W × A) → Type 0
      Gives {A = A} P o = (r' : Resolver W) × (x : A) × (o ≡ some (r', x)) × Usable r' × P x

      -- what the loop returns, with the question that it leaves
      abbrev Finishes : Option (Resolver W × AllReply Layers × Question) → Type 0
      Finishes o =
          (r' : Resolver W) × (reply : AllReply Layers) × (q' : Question) × (o
            ≡ some (r', reply, q'))
          × AreLayers net cfg lookups type_to_string ctx q reply.result
          × Ended reply
          × ((q' ≡ q) ⊎ (q' ≡ for_ns q))
          × ((reply.status ≡ Status.timeout) → q' ≡ for_ns q)
