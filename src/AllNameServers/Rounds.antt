-- ===== src/AllNameServers/Rounds.antt =====
-- The layers of `LookupAllNameserversIterative` of src/zdns/lookup.go, and the end of a round of its loop.
use zdns.Prelude.{
  ℕ, suc, ◌≡◌, ◌⊎◌, inl, inr, refl, Bool, none, some, List, [], ◌∷◌, ◌++◌, arith, Bool-cases, Text,
  text_eq, All,
}
use zdns.Records.{Question, Status, type_ns}
use zdns.Records.NameServers.{NameServer}
use zdns.Cache.Build.{is_nil}
use zdns.Resolver.{Config, LookupError, Network}
use zdns.Resolver.External.{Lookups}
use zdns.AllNameServers.{ExtendedResult, Layers, AllReply}
use zdns.AllNameServers.Fuel.{IsLayerOf, Ready, Ready-IsLayerOf, next-Ready}
use zdns.AllNameServers.Selected.{IsReplyOf, Selected, all, stopped, skipped, answered}
use zdns.AllNameServers.Iterative.{
  Descending, Step, returned, descended, bottom, add_layer, found_referral, next_layer,
}

-- A reply has no error exactly if its status says so.
abbrev pub Ended : AllReply Layers → Type 0
Ended reply =
    ((reply.error ≡ none) × (reply.status ≡ Status.no_error))
    ⊎ ((e : LookupError) × (reply.error ≡ some e)
        × ((reply.status ≡ Status.timeout) ⊎ (reply.status ≡ Status.error)))

abbrev pub for_ns : Question → Question
for_ns q = record q { type = type_ns }

module _ {W C M : Type 0} (net : Network W C M) (cfg : Config) (lookups : Lookups W C)
    (type_to_string : ℕ → Text) where
  -- A result of an external lookup of the question, or of the name servers of its name.
  abbrev pub IsOurs : C → Question → ExtendedResult → Type 0
  IsOurs ctx q res =
      (name : Text) × (IsReplyOf net cfg lookups type_to_string ctx (for_ns q) name res
        ⊎ IsReplyOf net cfg lookups type_to_string ctx q name res)

  abbrev pub AreLayers : C → Question → Layers → Type 0
  AreLayers ctx q layers = All (λ e. IsLayerOf q.name e.0 × All (IsOurs ctx q) e.1) layers

  All-append :
      {A : Type 0} (P : A → Type 0) (xs ys : List A) → All P xs → All P ys → All P (xs ++ ys)
  All-append P [] ys h k = k
  All-append P (x ∷ xs) ys h k = (h.0, All-append P xs ys h.1 k)

  module _ (ctx : C) (q : Question) where
    pub add_layer-AreLayers :
        (layers : Layers) (layer : Text) (results : List ExtendedResult)
        → AreLayers ctx q layers
        → IsLayerOf q.name layer
        → All (IsOurs ctx q) results
        → AreLayers ctx q (add_layer layers layer results)
    unfolding add_layer
    add_layer-AreLayers [] layer results h l k = ((l, k), tt)
    add_layer-AreLayers (e ∷ m) layer results h l k = elim (Bool-cases (text_eq e.0 layer)) [
      | inl b ↦ rw b ((l, All-append (IsOurs ctx q) e.1 results h.0.1 k), h.1)
      | inr b ↦ rw b (h.0, add_layer-AreLayers m layer results h.1 l k)
    ]

    pub Selected-ns :
        (b : Bool) (servers : List NameServer) (results : List ExtendedResult)
        → Selected net cfg lookups type_to_string ctx (for_ns q) b servers results
        → All (IsOurs ctx q) results
    Selected-ns b servers results all = tt
    Selected-ns b servers results (stopped e) = tt
    Selected-ns b (ns ∷ servers) results (skipped e sel) = Selected-ns b servers results sel
    Selected-ns b (ns ∷ servers) (res ∷ results) (answered mine sel) =
        ((ns.domain_name, inl mine), Selected-ns b servers results sel)

    pub Selected-q :
        (b : Bool) (servers : List NameServer) (results : List ExtendedResult)
        → Selected net cfg lookups type_to_string ctx q b servers results
        → All (IsOurs ctx q) results
    Selected-q b servers results all = tt
    Selected-q b servers results (stopped e) = tt
    Selected-q b (ns ∷ servers) results (skipped e sel) = Selected-q b servers results sel
    Selected-q b (ns ∷ servers) (res ∷ results) (answered mine sel) =
        ((ns.domain_name, inr mine), Selected-q b servers results sel)

    -- what a round ends in, with fuel for the rounds behind it
    unfoldable pub Continues : ℕ → Step → Type 0
    Continues fuel (returned reply) = AreLayers ctx q reply.result × Ended reply
    Continues fuel (descended s) = AreLayers ctx q s.layers × Ready fuel q.name s.layer
    Continues fuel (bottom s) = AreLayers ctx q s.layers × IsLayerOf q.name s.layer

    pub next_layer-Continues :
        (fuel : ℕ) (s : Descending) (results : List ExtendedResult) (servers : List NameServer)
        → AreLayers ctx q s.layers
        → Ready (suc fuel) q.name s.layer
        → Continues fuel (next_layer q.name s results servers)
    unfolding next_layer Continues
    next_layer-Continues fuel s results servers h ready =
        let (new, e, next) = next-Ready fuel q.name s.layer ready in
        elim (Bool-cases (text_eq new s.layer)) [
          | inl b ↦ rw (next_layer, e, b) (h, Ready-IsLayerOf (suc fuel) q.name s.layer ready)
          | inr b ↦ elim (Bool-cases (is_nil servers)) [
            | inl n ↦ elim (Bool-cases (found_referral results)) [
              | inl f ↦ rw (next_layer, e, b, n, f) (h, inl (refl, refl))
              | inr f ↦
                  rw (next_layer, e, b, n, f) (h, inr (LookupError.no_name_server, refl, inr refl))
            ]
            | inr n ↦ elim next [
              | inl loop ↦ absurd (ground (arith, loop, b))
              | inr ready' ↦ rw (next_layer, e, b, n) (h, ready')
            ]
          ]
        ]
