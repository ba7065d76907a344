-- ===== src/Lookup/Chains/Filed.antt =====
-- What `populateResults` files under a name.
use mathlib.Core.List.{append_assoc, append-nil}
use zdns.Prelude.{
  ℕ, ◌≡◌, inl, inr, sym, ap, ◌∙◌, Bool, true, not, ◌&&◌, Option, none, some, List, [], ◌∷◌, ◌++◌,
  arith, Bool-cases, if◌then◌else◌, ◌==◌, Text, text_eq,
}
use zdns.Prelude.StringLaws.{text_eq_iff}
use zdns.Records.{Answer, AnyAnswer, typed, opaque, as_answer, type_cname, type_dname}
use zdns.Lookup.Glue.{verify_address}
use zdns.Lookup.Chains.{
  AnswerMap, answers_at, append_at, AnswerSets, filed_name, populate_answer, populate_results,
}

-- the answers under `k` if one more is filed under `n`
abbrev filed_one : Bool → Text → Text → Answer → List Answer → List Answer
filed_one p n k a l = if p && text_eq n k then l ++ a ∷ [] else l

answers_at-append_at :
    (m : AnswerMap) (n : Text) (a : Answer) (k : Text)
    → answers_at (append_at m n a) k ≡ filed_one true n k a (answers_at m k)
unfolding answers_at append_at
answers_at-append_at [] n a k = ground arith
answers_at-append_at (e ∷ m) n a k = elim (Bool-cases (text_eq e.0 n)) [
  | inl q ↦ ground (arith, q, ap (λ t. text_eq t k) ((text_eq_iff e.0 n).0 q))
  | inr q ↦ elim (Bool-cases (text_eq e.0 k)) [
    | inl r ↦ elim (Bool-cases (text_eq n k)) [
      | inl t ↦ absurd (
          let same : e.0 ≡ n = (text_eq_iff e.0 k).0 r ∙ sym ((text_eq_iff n k).0 t) in
          let f = (text_eq_iff e.0 n).1 same in cc)
      | inr t ↦ ground (arith, q, r, t)
    ]
    | inr r ↦ ground (arith, q, r, answers_at-append_at m n a k)
  ]
]

-- the plain records of a section with a property, filed under a name, in order
abbrev pub pick : (Answer → Bool) → Text → List AnyAnswer → List Answer
pick p k [] = []
pick p k (x ∷ xs) = elim (as_answer x) [
  | none ↦ pick p k xs
  | some a ↦ if p a && text_eq (filed_name a) k then a ∷ pick p k xs else pick p k xs
]

pick-cons :
    (p : Answer → Bool) (k : Text) (a : Answer) (xs : List AnyAnswer) (l : List Answer)
    → filed_one (p a) (filed_name a) k a l ++ pick p k xs ≡ l ++ pick p k (AnyAnswer.answer a ∷ xs)
unfolding as_answer
pick-cons p k a xs l = elim (Bool-cases (p a && text_eq (filed_name a) k)) [
  | inl e ↦ ground (arith, e, append_assoc l (a ∷ []) (pick p k xs))
  | inr e ↦ ground (arith, e)
]

module _ (parse_ip : Text → Option (List ℕ)) (string_to_type : Text → ℕ) (dns_type : ℕ) where
  abbrev pub is_address : Answer → Bool
  is_address a = verify_address parse_ip a.type a.answer

  -- what makes an answer a candidate, a CNAME, a DNAME or garbage
  abbrev pub is_candidate : Answer → Bool
  is_candidate a = is_address a && dns_type == string_to_type a.type

  abbrev pub is_cname : Answer → Bool
  is_cname a =
      is_address a && not (dns_type == string_to_type a.type) && string_to_type a.type == type_cname

  abbrev pub is_dname : Answer → Bool
  is_dname a =
      is_address a && not (dns_type == string_to_type a.type) && string_to_type a.type == type_dname

  abbrev pub is_garbage : Answer → Bool
  is_garbage a = not (is_candidate a) && not (is_cname a) && not (is_dname a)

  record OneFiled (s s' : AnswerSets) (a : Answer) (k : Text) : Type 0 where
    candidates :
        answers_at s'.candidates k
        ≡ filed_one (is_candidate a) (filed_name a) k a (answers_at s.candidates k)
    cnames :
        answers_at s'.cnames k ≡ filed_one (is_cname a) (filed_name a) k a (answers_at s.cnames k)
    dnames :
        answers_at s'.dnames k ≡ filed_one (is_dname a) (filed_name a) k a (answers_at s.dnames k)
    garbage :
        answers_at s'.garbage k
        ≡ filed_one (is_garbage a) (filed_name a) k a (answers_at s.garbage k)

  populate_answer-OneFiled :
      (s : AnswerSets) (a : Answer) (k : Text)
      → OneFiled s (populate_answer parse_ip string_to_type dns_type s a) a k
  unfolding populate_answer
  populate_answer-OneFiled s a k = record {
    candidates = ground (arith, answers_at-append_at s.candidates (filed_name a) a k);
    cnames = ground (arith, answers_at-append_at s.cnames (filed_name a) a k);
    dnames = ground (arith, answers_at-append_at s.dnames (filed_name a) a k);
    garbage = ground (arith, answers_at-append_at s.garbage (filed_name a) a k);
  }

  -- what the maps hold of a name after a section
  pub record AreFiled (s s' : AnswerSets) (xs : List AnyAnswer) (k : Text) : Type 0 where
    pub candidates :
        answers_at s'.candidates k ≡ answers_at s.candidates k ++ pick is_candidate k xs
    pub cnames : answers_at s'.cnames k ≡ answers_at s.cnames k ++ pick is_cname k xs
    pub dnames : answers_at s'.dnames k ≡ answers_at s.dnames k ++ pick is_dname k xs
    pub garbage : answers_at s'.garbage k ≡ answers_at s.garbage k ++ pick is_garbage k xs

  -- `populateResults` adds to each of the four maps, under each name, just the plain records of the
  -- section that belong there, in order: each record goes to one map, under its own name.
  pub populate_results_lem :
      (xs : List AnyAnswer) (s : AnswerSets) (k : Text)
      → AreFiled s (populate_results parse_ip string_to_type xs dns_type s) xs k
  unfolding populate_results as_answer
  populate_results_lem [] s k = record {
    candidates = sym (append-nil (answers_at s.candidates k));
    cnames = sym (append-nil (answers_at s.cnames k));
    dnames = sym (append-nil (answers_at s.dnames k));
    garbage = sym (append-nil (answers_at s.garbage k));
  }
  populate_results_lem (typed c b r ∷ xs) s k =
      let h = populate_results_lem xs s k in
      record {
        candidates = h.candidates;
        cnames = h.cnames;
        dnames = h.dnames;
        garbage = h.garbage;
      }
  populate_results_lem (opaque r ∷ xs) s k =
      let h = populate_results_lem xs s k in
      record {
        candidates = h.candidates;
        cnames = h.cnames;
        dnames = h.dnames;
        garbage = h.garbage;
      }
  populate_results_lem (AnyAnswer.answer a ∷ xs) s k =
      let h = populate_results_lem xs (populate_answer parse_ip string_to_type dns_type s a) k in
      let o = populate_answer-OneFiled s a k in
      record {
        candidates =
            h.candidates
            ∙ ap (λ l. l ++ pick is_candidate k xs) o.candidates
            ∙ pick-cons is_candidate k a xs (answers_at s.candidates k);
        cnames =
            h.cnames
            ∙ ap (λ l. l ++ pick is_cname k xs) o.cnames
            ∙ pick-cons is_cname k a xs (answers_at s.cnames k);
        dnames =
            h.dnames
            ∙ ap (λ l. l ++ pick is_dname k xs) o.dnames
            ∙ pick-cons is_dname k a xs (answers_at s.dnames k);
        garbage =
            h.garbage
            ∙ ap (λ l. l ++ pick is_garbage k xs) o.garbage
            ∙ pick-cons is_garbage k a xs (answers_at s.garbage k);
      }
