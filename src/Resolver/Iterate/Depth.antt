-- ===== src/Resolver/Iterate/Depth.antt =====
-- `iterativeLookup` of src/zdns/lookup.go and the limit on its depth.
use zdns.Prelude.{ℕ, zero, suc, ◌+◌, ◌≤◌, ◌<◌, ◌≡◌, ap, List, arith, Text}
use zdns.Records.{Question, TraceStep}
use zdns.Records.NameServers.{NameServer}
use zdns.Resolver.{Config, Resolver, Network}
use zdns.Resolver.Authorities.{Deeper}
use zdns.Resolver.Iterate.{iterate_step, iterate_from, iterative_lookup}

module _ {W C M : Type 0} (net : Network W C M) (cfg : Config) where
  -- beyond the limit nothing is looked up, so the deeper lookup does not matter
  too_deep :
      (f g : Deeper W C) (depth : ℕ)
      → cfg.max_depth < depth
      → (r : Resolver W) (ctx : C) (q : Question) (servers : List NameServer) (layer : Text)
        (trace : List TraceStep)
      → iterate_step net cfg f depth r ctx q servers layer trace
        ≡ iterate_step net cfg g depth r ctx q servers layer trace
  unfolding iterate_step
  too_deep f g depth lt r ctx q servers layer trace = ground arith

  -- with enough fuel, more of it changes nothing
  iterate_from-suc :
      (fuel depth : ℕ)
      → cfg.max_depth + 1 ≤ depth + fuel
      → iterate_from net cfg (suc fuel) depth ≡ iterate_from net cfg (suc (suc fuel)) depth
  unfolding iterate_from
  iterate_from-suc zero depth le = λ i r ctx q servers layer trace.
      too_deep (iterate_from net cfg zero (depth + 1)) (iterate_from net cfg 1 (depth + 1)) depth
        (omega arith) r ctx q servers layer trace i
  iterate_from-suc (suc fuel) depth le =
      ap (λ (f : Deeper W C). iterate_step net cfg f depth)
        (iterate_from-suc fuel (depth + 1) (omega arith))

  -- At every depth the iterative lookup is one step over the lookup one level deeper, as in the
  -- source: the fuel is enough.
  pub iterative_lookup-unfold :
      (depth : ℕ)
      → iterative_lookup net cfg depth
        ≡ iterate_step net cfg (iterative_lookup net cfg (depth + 1)) depth
  unfolding iterative_lookup iterate_from
  iterative_lookup-unfold depth = iterate_from-suc (suc cfg.max_depth) depth (omega arith)
