-- ===== src/Lookup/Chains/Complete.antt =====
-- When `isLookupComplete` takes a name for resolved.
use zdns.Prelude.{
  ℕ, zero, suc, ◌+◌, ◌≤◌, ◌<◌, ◌≡◌, ◌⊎◌, inl, inr, refl, true, not, ◌&&◌, none, some, List, [], ◌∷◌,
  arith, Bool-cases, List-cases, Option-cases, ◌==◌, length, Text, text_eq,
}
use zdns.Prelude.StringLaws.{text_eq_iff}
use zdns.Records.{Answer}
use zdns.Lookup.Chains.{
  AnswerMap, answers_at, AnswerSets, target_name, apply_dname, next_name, complete_from,
  is_lookup_complete,
}

-- `k` CNAMEs lead from one name to another
pub data Chain (s : AnswerSets) : ℕ → Text → Text → Type 0 where
  here : (n : Text) → Chain s 0 n n
  hop :
      (k : ℕ) (n m : Text) (a : Answer) (l : List Answer)
      → answers_at s.cnames n ≡ a ∷ l
      → Chain s k (target_name a) m
      → Chain s (suc k) n m

module _ (order : ℕ → AnswerMap → AnswerMap) (s : AnswerSets) where
  -- `k` rounds of the loop lead from one name to another, from round `i` on
  pub data Walk : ℕ → ℕ → Text → Text → Type 0 where
    stop : (i : ℕ) (n : Text) → Walk i 0 n n
    move :
        (i k : ℕ) (n n' m : Text)
        → next_name order i s n ≡ some n'
        → Walk (i + 1) k n' m
        → Walk i (suc k) n m
    stay :
        (i k : ℕ) (n m : Text)
        → next_name order i s n ≡ none
        → Walk (i + 1) k n m
        → Walk i (suc k) n m

  complete_from-Chain :
      (fuel i k : ℕ) (original n m : Text) (c : Answer) (cs : List Answer)
      → k < fuel
      → Chain s k n m
      → answers_at s.candidates m ≡ c ∷ cs
      → complete_from order fuel i original s n ≡ true
  unfolding complete_from next_name
  complete_from-Chain zero i k original n m c cs lt ch e = absurd (omega arith)
  complete_from-Chain (suc fuel) i _ original n _ c cs lt (here _) e = ground (arith, e)
  complete_from-Chain (suc fuel) i _ original n m c cs lt (hop k _ _ a l f ch) e = ground (
    arith,
    f,
    complete_from-Chain fuel (i + 1) k original (target_name a) m c cs (omega arith) ch e,
  )

  -- A name from which CNAMEs lead to a name with a candidate is complete, if the chain is no longer
  -- than the two maps have names.
  pub is_lookup_complete-Chain :
      (k : ℕ) (original m : Text) (c : Answer) (cs : List Answer)
      → k ≤ length s.cnames + length s.dnames
      → Chain s k original m
      → answers_at s.candidates m ≡ c ∷ cs
      → is_lookup_complete order original s ≡ true
  unfolding is_lookup_complete
  is_lookup_complete-Chain k original m c cs le ch e =
      complete_from-Chain (length s.cnames + length s.dnames + 1) 0 k original original m c cs
        (omega arith) ch e

  -- why a name is taken for resolved
  pub record Resolves (original : Text) (i : ℕ) (n : Text) : Type 0 where
    pub rounds : ℕ
    pub last : Text
    pub walk : Walk i rounds n last
    pub reason :
        ((c : Answer) × (cs : List Answer) × (answers_at s.candidates last ≡ c ∷ cs))
        ⊎ ((last ≡ original) × (0 < i + rounds))

  stay-Resolves :
      (original : Text) (i : ℕ) (n : Text)
      → next_name order i s n ≡ none
      → Resolves original (i + 1) n
      → Resolves original i n
  stay-Resolves original i n g r = record {
    rounds = suc r.rounds;
    last = r.last;
    walk = stay i r.rounds n r.last g r.walk;
    reason = elim r.reason [ inl c ↦ inl c | inr (e, lt) ↦ inr (e, omega arith) ];
  }

  move-Resolves :
      (original : Text) (i : ℕ) (n n' : Text)
      → next_name order i s n ≡ some n'
      → Resolves original (i + 1) n'
      → Resolves original i n
  move-Resolves original i n n' g r = record {
    rounds = suc r.rounds;
    last = r.last;
    walk = move i r.rounds n n' r.last g r.walk;
    reason = elim r.reason [ inl c ↦ inl c | inr (e, lt) ↦ inr (e, omega arith) ];
  }

  complete_from-Resolves :
      (fuel i : ℕ) (original n : Text)
      → complete_from order fuel i original s n ≡ true
      → Resolves original i n
  unfolding complete_from
  complete_from-Resolves zero i original n h = absurd cc
  complete_from-Resolves (suc fuel) i original n h =
      elim (Bool-cases (text_eq n original && not (i == 0))) [
        | inl e ↦ record {
          rounds = 0;
          last = n;
          walk = stop i n;
          reason = inr ((text_eq_iff n original).0 (ground arith), ground arith);
        }
        | inr e ↦ elim (List-cases (answers_at s.candidates n)) [
          | inr (c, cs, f) ↦ record {
            rounds = 0;
            last = n;
            walk = stop i n;
            reason = inl (c, cs, f);
          }
          | inl f ↦ elim (Option-cases (next_name order i s n)) [
            | inl g ↦
                stay-Resolves original i n g
                  (complete_from-Resolves fuel (i + 1) original n (ground arith))
            | inr (n', g) ↦
                move-Resolves original i n n' g
                  (complete_from-Resolves fuel (i + 1) original n' (ground arith))
          ]
        ]
      ]

  -- What is complete has its reason: the rounds of the loop lead to a name with a candidate, or back
  -- to the name itself.
  pub is_lookup_complete-Resolves :
      (original : Text) → is_lookup_complete order original s ≡ true → Resolves original 0 original
  unfolding is_lookup_complete
  is_lookup_complete-Resolves original h =
      complete_from-Resolves (length s.cnames + length s.dnames + 1) 0 original original h

  -- A name of which nothing is known stands still, so the second round takes it for a loop and it is
  -- complete: one CNAME of any other name is enough.
  pub is_lookup_complete_unknown :
      (original : Text)
      → answers_at s.candidates original ≡ []
      → answers_at s.cnames original ≡ []
      → apply_dname (order 0 s.dnames) original ≡ none
      → 0 < length s.cnames + length s.dnames
      → is_lookup_complete order original s ≡ true
  unfolding is_lookup_complete complete_from next_name
  is_lookup_complete_unknown original c n d pos = unknown (length s.cnames + length s.dnames) pos
    where
      unknown : (k : ℕ) → 0 < k → complete_from order (k + 1) 0 original s original ≡ true
      unknown zero pos = absurd (omega arith)
      unknown (suc k) pos = ground (arith, c, n, d, (text_eq_iff original original).1 refl)
