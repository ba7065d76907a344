-- ===== src/Validator.antt =====
-- The data of the DNSSEC validator of src/zdns/dnssec.go and dnssec_types.go: records as the DNS
-- library has them, the fields of `dNSSECValidator`, and what the validator uses of that library.
pub mod Keys
pub mod Sections
pub mod Message
pub mod Anchors
pub mod Signed
pub mod Judged
pub mod Verdict
pub mod Faults
use zdns.Prelude.{
  ℕ, ◌≡◌, ◌⊎◌, inl, inr, refl, Bool, true, false, Option, none, some, List, [], ◌∷◌, ◌==◌,
  if◌then◌else◌, Text, ℕ_discrete,
}
use zdns.Records.{Question, Answer, AnyAnswer, DnssecStatus, TraceStep}
use zdns.Records.NameServers.{NameServer}
use zdns.Cache.Build.{Question-discrete}
use zdns.Resolver.{Resolver, LookupError, Reply}

-- Fields of the records that no modelled function reads are one text, `rest`.
pub record RrHeader : Type 0 where
  pub name : Text
  pub rr_type : ℕ
  pub class : ℕ

pub record Dnskey : Type 0 where
  pub header : RrHeader
  pub flags : ℕ
  pub rest : Text

pub record Ds : Type 0 where
  pub key_tag : ℕ
  pub digest_type : ℕ
  pub digest : Text
  pub rest : Text

pub record Rrsig : Type 0 where
  pub header : RrHeader
  pub type_covered : ℕ
  pub signer_name : Text
  pub key_tag : ℕ
  pub rest : Text

pub record Nsec : Type 0 where
  pub name : Text
  pub type_bit_map : List ℕ

pub record Nsec3 : Type 0 where
  pub flags : ℕ
  pub type_bit_map : List ℕ
  pub rest : Text

pub data Rr : Type 0 where
  rrsig : Rrsig → Rr
  dnskey : Dnskey → Rr
  other : RrHeader → Text → Rr

-- `dns.Msg`
pub record Msg : Type 0 where
  pub answer : List Rr
  pub ns : List Rr
  pub extra : List Rr
  pub authoritative : Bool

-- The fields of a validator that change. Before the first message the maps are nil and nothing is
-- put into them.
pub record ValidatorState : Type 0 where
  pub status : DnssecStatus
  pub reason : Text
  pub msg : Option Msg
  pub name_server : Option NameServer
  pub ds : List Ds
  pub dnskeys : List Dnskey

-- the world of a resolver that validates: the validator, and the rest
pub record Validating (W : Type 0) : Type 0 where
  pub outside : W
  pub validator : ValidatorState

abbrev pub validator_of : {W : Type 0} → Resolver (Validating W) → ValidatorState
validator_of r = r.world.validator

abbrev pub with_validator :
    {W : Type 0} → Resolver (Validating W) → ValidatorState → Resolver (Validating W)
with_validator r v = record r { world = record r.world { validator = v } }

-- `v.r.lookup` with the context, the root name servers and the mode of the validator
abbrev pub LookUp : Type 0 → Type 0
LookUp W =
    Resolver (Validating W) → Question → List TraceStep → Option (Resolver (Validating W) × Reply)

-- a value, or the text of an error
pub data Fetched (A : Type 0) : Type 0 where
  failed : Text → Fetched A
  found : A → Fetched A

pub Fetched-cases :
    {A : Type 0} (x : Fetched A) → ((e : Text) × (x ≡ failed e)) ⊎ ((a : A) × (x ≡ found a))
Fetched-cases (failed e) = inl (e, refl)
Fetched-cases (found a) = inr (a, refl)

-- a Go map from key tags
abbrev pub TagMap : Type 0 → Type 0
TagMap A = List (ℕ × A)

unfoldable pub at_tag : {A : Type 0} → TagMap A → ℕ → Option A
at_tag [] tag = none
at_tag (e ∷ m) tag = if e.0 == tag then some e.1 else at_tag m tag

unfoldable pub put_tag : {A : Type 0} → TagMap A → ℕ → A → TagMap A
put_tag [] tag a = (tag, a) ∷ []
put_tag (e ∷ m) tag a = let rest = put_tag m tag a in if e.0 == tag then (tag, a) ∷ m else e ∷ rest

-- a Go map from `RRsetKey`, in the order of the first insertion
abbrev pub SetMap : Type 0 → Type 0
SetMap A = List (Question × List A)

-- `==` on `RRsetKey`
unfoldable pub key_eq : Question → Question → Bool
unfolding Question-discrete
key_eq p q = elim (Question-discrete p q) [ yes e ↦ true | no n ↦ false ]

-- What the program uses of the DNS library, its own conversions between the records of that library
-- and those of its results, the root anchors, and the orders of the ranges over its maps.
pub record DnsLibrary : Type 0 where
  -- DNSKEY.KeyTag and DNSKEY.ToDS, RRSIG.Verify (`none` is nil) and RRSIG.ValidityPeriod
  pub key_tag : Dnskey → ℕ
  pub to_ds : Dnskey → ℕ → Option Ds
  pub verify : Rrsig → Dnskey → List Rr → Option Text
  pub is_valid_at : Rrsig → ℕ → Bool
  -- NSEC3.Cover and NSEC3.Match, dns.CanonicalName
  pub covers : Nsec3 → Text → Bool
  pub matches : Nsec3 → Text → Bool
  pub canonical_name : Text → Text
  -- rootanchors.GetValidDSRecords
  pub root_ds : TagMap Ds
  -- `ToVanillaType` of the typed answers
  pub dnskey_of : Answer → Text → Dnskey
  pub ds_of : Answer → Text → Ds
  pub nsec_of : Answer → Text → Nsec
  pub nsec3_of : Answer → Text → Nsec3
  -- `ParseAnswer`
  pub parse_rrsig : Rrsig → AnyAnswer
  pub parse_ds : Ds → AnyAnswer
  pub parse_dnskey : Dnskey → AnyAnswer
  -- `%v`
  pub show_rr : Rr → Text
  pub show_error : LookupError → Text
  -- the orders of the ranges over the RR sets, the keys, and the records that were used
  pub set_order : SetMap Rr → SetMap Rr
  pub key_order : TagMap Dnskey → TagMap Dnskey
  pub ds_order : List Ds → List Ds
  pub dnskey_order : List Dnskey → List Dnskey
