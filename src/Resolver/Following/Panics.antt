-- ===== src/Resolver/Following/Panics.antt =====
-- When `doDstServersLookup` of src/zdns/lookup.go panics, without the validation of DNSSEC.
use zdns.Prelude.{
  ◌-◌, take, ℕ, ◌≡◌, ◌⊎◌, Bool, true, false, Option, none, some, [], ◌==◌, length, Text,
}
use zdns.Lookup.Chains.Targets.{IsPlain}
use zdns.Records.{Question, type_ptr}
use zdns.Lookup.Chains.{AnswerMap}
use zdns.Cache.Build.{is_nil}
use zdns.Resolver.{Config, Resolver, Network}
use zdns.Resolver.Settled.{Settled}

module _ {W C M : Type 0} (net : Network W C M) (cfg : Config) (string_to_type : Text → ℕ)
    (order : ℕ → ℕ → AnswerMap → AnswerMap) (dname_order : ℕ → AnswerMap → AnswerMap)
    (reverse_addr : Text → Option Text) (is_valid_domain_name : Text → Bool) where
  -- A PTR record of a domain name is asked for that `ReverseAddr` takes for no address, or of a name
  -- that it makes the empty text of.
  abbrev pub AsksBadPtr : Question → Type 0
  AsksBadPtr q =
      ((q.type == type_ptr) ≡ true)
      × (((reverse_addr q.name ≡ none) × (is_valid_domain_name q.name ≡ true))
          ⊎ (reverse_addr q.name ≡ some []))

  -- what `ReverseAddr` returns is a name with a dot at its end, and one only
  abbrev pub IsReversed : Type 0
  IsReversed =
      (name x : Text)
      → reverse_addr name ≡ some x
      → is_nil x ≡ false
      → IsPlain (take (length x - 1) x)
