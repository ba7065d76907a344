-- ===== src/AllNameServers.antt =====
-- The lookups at all name servers of src/zdns/lookup.go, with the data of qa.go.
pub mod Extract
pub mod Named
pub mod Keyed
pub mod Found
pub mod Layer
pub mod Reliable
pub mod Selected
pub mod External
pub mod Asked
pub mod Iterative
pub mod Fuel
pub mod Rounds
pub mod Descent
use zdns.Prelude.{ℕ, Bool, Option, List, Text}
use zdns.Records.{Status, SingleQueryResult, TraceStep}
use zdns.Resolver.{LookupError}

-- the result of one name server
pub record ExtendedResult : Type 0 where
  pub type : Text
  pub res : SingleQueryResult
  pub status : Status
  pub nameserver : Text

-- the map of an `AllNameServersResult`, in the order of the first insertion
abbrev pub Layers : Type 0
Layers = List (Text × List ExtendedResult)

-- what the lookups return, with a list of results or with layers
pub record AllReply (A : Type 0) : Type 0 where
  pub result : A
  pub trace : List TraceStep
  pub status : Status
  pub error : Option LookupError
