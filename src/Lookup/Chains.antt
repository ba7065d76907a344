-- ===== src/Lookup/Chains.antt =====
-- The maps of answers that a lookup which follows CNAMEs and DNAMEs keeps: `populateResults` and
-- `isLookupComplete` of src/zdns/lookup.go. A map is an association list from names to answers, in
-- the order of the first insertion; Go's order of a `range` over it is a parameter, as are
-- `net.ParseIP` and the table `dns.StringToType`.
pub mod Filed
pub mod Targets
pub mod Complete
use zdns.Prelude.{
  ℕ, zero, suc, ◌+◌, Bool, true, false, not, ◌&&◌, ◌||◌, Option, none, some, List, [], ◌∷◌, ◌++◌,
  length, ◌==◌, if◌then◌else◌, Text, text_eq, to_lower, trim_suffix, contains, replace_first,
}
use zdns.Names.{dot}
use zdns.Records.{Answer, AnyAnswer, as_answer, type_cname, type_dname}
use zdns.Lookup.Glue.{verify_address}

abbrev pub AnswerMap : Type 0
AnswerMap = List (Text × List Answer)

-- `m[name]`, empty for a missing name: the code asks for an entry that is not empty
unfoldable pub answers_at : AnswerMap → Text → List Answer
answers_at [] name = []
answers_at (e ∷ m) name = if text_eq e.0 name then e.1 else answers_at m name

-- `m[name] = append(m[name], a)`
unfoldable pub append_at : AnswerMap → Text → Answer → AnswerMap
append_at [] name a = (name, a ∷ []) ∷ []
append_at (e ∷ m) name a =
    let rest = append_at m name a in if text_eq e.0 name then (e.0, e.1 ++ a ∷ []) ∷ m else e ∷ rest

pub record AnswerSets : Type 0 where
  pub candidates : AnswerMap
  pub cnames : AnswerMap
  pub dnames : AnswerMap
  pub garbage : AnswerMap

-- the name that an answer is filed under, and the name that it refers to
unfoldable pub filed_name : Answer → Text
filed_name a = to_lower (trim_suffix a.name dot)

unfoldable pub target_name : Answer → Text
target_name a = to_lower (trim_suffix a.answer dot)

module _ (parse_ip : Text → Option (List ℕ)) (string_to_type : Text → ℕ) where
  unfoldable pub populate_answer : ℕ → AnswerSets → Answer → AnswerSets
  unfolding verify_address append_at filed_name
  populate_answer dns_type s a =
      let name = filed_name a in
      if verify_address parse_ip a.type a.answer
      then (let ans_type = string_to_type a.type in
          if dns_type == ans_type
          then record s { candidates = append_at s.candidates name a }
          else if ans_type == type_cname
          then record s { cnames = append_at s.cnames name a }
          else if ans_type == type_dname
          then record s { dnames = append_at s.dnames name a }
          else record s { garbage = append_at s.garbage name a })
      else record s { garbage = append_at s.garbage name a }

  unfoldable pub populate_results : List AnyAnswer → ℕ → AnswerSets → AnswerSets
  unfolding populate_answer as_answer
  populate_results [] dns_type s = s
  populate_results (x ∷ xs) dns_type s = elim (as_answer x) [
    | none ↦ populate_results xs dns_type s
    | some a ↦ populate_results xs dns_type (populate_answer dns_type s a)
  ]

-- The loop over the DNAMEs: the name with the first match replaced, if there is one. An entry of the
-- map is never empty.
unfoldable pub apply_dname : AnswerMap → Text → Option Text
apply_dname [] name = none
apply_dname (e ∷ m) name =
    let rest = apply_dname m name in
    if contains name e.0
    then elim e.1 [
      | [] ↦ some name
      | a ∷ l ↦ some (replace_first name e.0 (trim_suffix a.answer dot))
    ]
    else rest

-- `order i m` is the order of the range over `m` in round `i`.
module _ (order : ℕ → AnswerMap → AnswerMap) where
  unfoldable pub next_name : ℕ → AnswerSets → Text → Option Text
  unfolding answers_at target_name apply_dname
  next_name i s name = elim (answers_at s.cnames name) [
    | a ∷ l ↦ some (target_name a)
    | [] ↦ apply_dname (order i s.dnames) name
  ]

  -- round `i` of the loop, with `fuel` rounds to go
  unfoldable pub complete_from : ℕ → ℕ → Text → AnswerSets → Text → Bool
  unfolding answers_at next_name
  complete_from zero i original s name = false
  complete_from (suc fuel) i original s name =
      let next : Text = elim (next_name i s name) [ none ↦ name | some n ↦ n ] in
      let rest = complete_from fuel (i + 1) original s next in
      if text_eq name original && not (i == 0)
      then true
      else elim (answers_at s.candidates name) [ a ∷ l ↦ true | [] ↦ rest ]

  unfoldable pub is_lookup_complete : Text → AnswerSets → Bool
  unfolding complete_from
  is_lookup_complete original s =
      complete_from (length s.cnames + length s.dnames + 1) 0 original s original
