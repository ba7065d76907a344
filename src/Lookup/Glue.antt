-- ===== src/Lookup/Glue.antt =====
-- The helpers that read addresses out of responses: `checkGlue`, `VerifyAddress`, `Unique` and
-- `handleStatus` of src/zdns/util.go, `getIPAddressesFromQueryResult` of alookup.go, and the search of
-- TXT records of lookup.go. `net.ParseIP` and the matching of a regular expression are parameters.
pub mod Found
pub mod Uniques
use zdns.Prelude.{
  ℕ, Bool, true, false, not, ◌&&◌, ◌||◌, Option, none, some, List, [], ◌∷◌, ◌++◌, if◌then◌else◌,
  Text, codes, text_eq, trim_suffix, contains_byte, equal_fold,
}
use zdns.Names.{dot}
use zdns.Records.{
  Status, Answer, AnyAnswer, as_answer, SingleQueryResult, empty_result, safe_status,
}
use zdns.Records.NameServers.{IpVersionMode, IterationIpPreference}

-- the record that glue is looked for in
unfoldable pub is_glue : Text → Text → Answer → Bool
is_glue server ans_type a = text_eq a.type ans_type && equal_fold (trim_suffix a.name dot) server

-- the loop of `checkGlueHelper`
unfoldable pub find_glue : Text → Text → List AnyAnswer → Option Answer
unfolding as_answer is_glue
find_glue server ans_type [] = none
find_glue server ans_type (x ∷ xs) = elim (as_answer x) [
  | none ↦ find_glue server ans_type xs
  | some a ↦ if is_glue server ans_type a then some a else find_glue server ans_type xs
]

unfoldable pub check_glue_helper :
    Text → Text → SingleQueryResult → Option SingleQueryResult × Status
unfolding find_glue
check_glue_helper server ans_type result = elim (find_glue server ans_type result.additionals) [
  | some a ↦ (some (record empty_result { answers = AnyAnswer.answer a ∷ [] }), Status.no_error)
  | none ↦ (none, Status.error)
]

-- The type that is looked for first. The case that no mode has, a fatal error, does not occur.
unfoldable pub first_type : IpVersionMode → IterationIpPreference → Text
first_type IpVersionMode.ipv4_only preference = codes "A"
first_type IpVersionMode.ipv6_only preference = codes "AAAA"
first_type IpVersionMode.ipv4_or_ipv6 IterationIpPreference.prefer_ipv4 = codes "A"
first_type IpVersionMode.ipv4_or_ipv6 IterationIpPreference.prefer_ipv6 = codes "AAAA"

unfoldable pub is_dual : IpVersionMode → Bool
is_dual IpVersionMode.ipv4_or_ipv6 = true
is_dual _ = false

unfoldable pub check_glue :
    Text
    → SingleQueryResult
    → IpVersionMode
    → IterationIpPreference
    → Option SingleQueryResult × Status
unfolding check_glue_helper first_type is_dual safe_status
check_glue server result ip_mode preference =
    let ans_type = first_type ip_mode preference in
    let (res, status) = check_glue_helper server ans_type result in
    if safe_status status || not (is_dual ip_mode)
    then (res, status)
    else if text_eq ans_type (codes "A")
    then check_glue_helper server (codes "AAAA") result
    else check_glue_helper server (codes "A") result

unfoldable pub verify_address : (Text → Option (List ℕ)) → Text → Text → Bool
verify_address parse_ip ans_type ip =
    let is_ipv6 : Bool = elim (parse_ip ip) [ none ↦ false | some v ↦ contains_byte ip b':' ] in
    let is_ipv4 : Bool = elim (parse_ip ip) [
      | none ↦ false
      | some v ↦ not (contains_byte ip b':')
    ] in
    if text_eq ans_type (codes "A")
    then is_ipv4
    else if text_eq ans_type (codes "AAAA")
    then is_ipv6
    else not is_ipv4 && not is_ipv6

-- the answers of the plain records of one type
unfoldable pub addresses_of : Text → List AnyAnswer → List Text
unfolding as_answer
addresses_of query_type [] = []
addresses_of query_type (x ∷ xs) =
    let rest = addresses_of query_type xs in
    elim (as_answer x) [
      | none ↦ rest
      | some a ↦ if text_eq a.type query_type then a.answer ∷ rest else rest
    ]

-- `none` is the error for a nil result
unfoldable pub get_ip_addresses_from_query_result :
    Option SingleQueryResult → Text → Option (List Text)
unfolding addresses_of
get_ip_addresses_from_query_result none query_type = none
get_ip_addresses_from_query_result (some res) query_type =
    some (addresses_of query_type res.answers ++ addresses_of query_type res.additionals)

-- a lookup in the map `seen`
unfoldable pub is_seen : List Text → Text → Bool
is_seen [] v = false
is_seen (w ∷ seen) v = text_eq w v || is_seen seen v

-- the loop of `Unique`, which moves what it keeps to the front of the slice
unfoldable pub unique_from : List Text → List Text → List Text
unfolding is_seen
unique_from seen [] = []
unique_from seen (v ∷ a) =
    let kept = unique_from (v ∷ seen) a in
    let dropped = unique_from seen a in if is_seen seen v then dropped else v ∷ kept

unfoldable pub unique : List Text → List Text
unfolding unique_from
unique a = unique_from [] a

-- `nil` for the regular expression is `none`; a record that is no plain answer reads as an empty one
unfoldable pub find_txt_record : Option (Text → Bool) → List AnyAnswer → Option Text
unfolding as_answer
find_txt_record regex [] = none
find_txt_record regex (x ∷ xs) =
    let text : Text = elim (as_answer x) [ none ↦ [] | some a ↦ a.answer ] in
    let matches : Bool = elim regex [ none ↦ true | some match ↦ match text ] in
    if matches then some text else find_txt_record regex xs

-- `CheckTxtRecords`: the text and the status; the error is `none` exactly when it is nil
unfoldable pub check_txt_records :
    {E : Type 0}
    → SingleQueryResult
    → Status
    → Option (Text → Bool)
    → Option E
    → E
    → Text × Status × Option E
unfolding find_txt_record safe_status
check_txt_records res status regex err no_such_record =
    if not (safe_status status)
    then ([], status, err)
    else elim (find_txt_record regex res.answers) [
      | none ↦ ([], Status.no_record, some no_such_record)
      | some t ↦ (t, Status.no_error, none)
    ]

-- the status that is kept, none for the empty status of the default case, and the error
unfoldable pub handle_status : {E : Type 0} → Status → Option E → Option Status × Option E
handle_status Status.iter_timeout err = (some Status.iter_timeout, err)
handle_status Status.no_needed_glue err = (some Status.no_needed_glue, err)
handle_status Status.nx_domain err = (some Status.nx_domain, none)
handle_status Status.serv_fail err = (some Status.serv_fail, none)
handle_status Status.refused err = (some Status.refused, none)
handle_status Status.auth_fail err = (some Status.auth_fail, none)
handle_status Status.no_record err = (some Status.no_record, none)
handle_status Status.blacklisted err = (some Status.blacklisted, none)
handle_status Status.no_output err = (some Status.no_output, none)
handle_status Status.no_answer err = (some Status.no_answer, none)
handle_status Status.truncated err = (some Status.truncated, none)
handle_status Status.illegal_input err = (some Status.illegal_input, none)
handle_status _ err = (none, none)
