-- ===== src/Validator/Anchors.antt =====
-- `findSEPs` and `findSEPsFromAnswer` of src/zdns/dnssec.go: the keys that they find.
use zdns.Prelude.{
  ℕ, ◌≡◌, ◌⊎◌, inl, inr, sym, ap, ◌∙◌, true, some, List, [], ◌∷◌, arith, Among, Bool-cases,
  Option-cases, ◌==◌, if◌then◌else◌, Text,
}
use zdns.Records.{TraceStep}
use zdns.Resolver.{Resolver}
use zdns.Validator.{
  Dnskey, Ds, Rr, Validating, LookUp, Fetched-cases, found, TagMap, at_tag, put_tag, DnsLibrary,
}
use zdns.Validator.Keys.{
  Delegation-cases, records, is_key_flag, fetch_ds_records, matching_ds, add_ds, collect_seps,
  find_seps, collect_keys, find_seps_from_answer,
}

at_tag-put_tag :
    {A : Type 0} (m : TagMap A) (t : ℕ) (a : A) (k : ℕ)
    → at_tag (put_tag m t a) k ≡ (if t == k then some a else at_tag m k)
unfolding at_tag put_tag
at_tag-put_tag [] t a k = ground arith
at_tag-put_tag (e ∷ m) t a k = ground (arith, at_tag-put_tag m t a k)

module _ (lib : DnsLibrary) where
  -- a key of an RR set with one of the two flags
  pub record IsKeyOf (rrs : List Rr) (tag : ℕ) (k : Dnskey) : Type 0 where
    pub among : Among (Rr.dnskey k) rrs
    pub flag : is_key_flag k.flags ≡ true
    pub tag_is : lib.key_tag k ≡ tag

  among_put_tag :
      {A : Type 0} (m : TagMap A) (t i : ℕ) (a x : A)
      → Among (i, x) (put_tag m t a)
      → Among (i, x) m ⊎ ((i ≡ t) × (x ≡ a))
  unfolding put_tag
  among_put_tag [] t i a x (inl e) = inr (ap (λ p. p.0) e, ap (λ p. p.1) e)
  among_put_tag [] t i a x (inr no_element) = elim no_element [ ]
  among_put_tag (e ∷ m) t i a x h = elim (Bool-cases (e.0 == t)) [
    | inl same ↦
        let l : Among (i, x) ((t, a) ∷ m) = rw same at h in
        elim l [ inl p ↦ inr (ap (λ p. p.0) p, ap (λ p. p.1) p) | inr q ↦ inl (inr q) ]
    | inr other ↦
        let l : Among (i, x) (e ∷ put_tag m t a) = rw other at h in
        elim l [
          | inl p ↦ inl (inl p)
          | inr q ↦ elim (among_put_tag m t i a x q) [ inl b ↦ inl (inr b) | inr c ↦ inr c ]
        ]
  ]

  collect_keys-IsKeyOf :
      (m : TagMap Dnskey) (rrs : List Rr) (keys : TagMap Dnskey) (tag : ℕ) (k : Dnskey)
      → collect_keys lib m rrs ≡ found keys
      → Among (tag, k) keys
      → Among (tag, k) m ⊎ IsKeyOf rrs tag k
  unfolding collect_keys
  collect_keys-IsKeyOf m [] keys tag k e h = inl (let same : m ≡ keys = cc in rw same h)
  collect_keys-IsKeyOf m (Rr.dnskey x ∷ rrs) keys tag k e h =
      elim (Bool-cases (is_key_flag x.flags)) [
        | inr f ↦ absurd (ground arith)
        | inl f ↦
            elim (collect_keys-IsKeyOf (put_tag m (lib.key_tag x) x) rrs keys tag k (ground arith)
              h) [
                | inl at ↦ elim (among_put_tag m (lib.key_tag x) tag x k at) [
                  | inl a ↦ inl a
                  | inr (p, q) ↦ inr (record {
                    among = inl (ap Rr.dnskey q);
                    flag = rw q f;
                    tag_is = rw q (sym p);
                  })
                ]
                | inr i ↦ inr (record { among = inr i.among; flag = i.flag; tag_is = i.tag_is })
              ]
      ]
  collect_keys-IsKeyOf m (Rr.rrsig x ∷ rrs) keys tag k e h = absurd cc
  collect_keys-IsKeyOf m (Rr.other x t ∷ rrs) keys tag k e h = absurd cc

  -- a key for which the DS records of the zone vouch
  abbrev pub IsMatched : TagMap Ds → Dnskey → Type 0
  IsMatched ds_records k = (actual : Ds) × (matching_ds lib ds_records k ≡ some actual)

  collect_seps-IsMatched :
      (ds_records : TagMap Ds) (used : List Ds) (seps keys : TagMap Dnskey) (tag : ℕ) (k : Dnskey)
      → at_tag (collect_seps lib ds_records used seps keys).1 tag ≡ some k
      → (at_tag seps tag ≡ some k)
        ⊎ ((lib.key_tag k ≡ tag) × ((i : ℕ) × Among (i, k) keys) × IsMatched ds_records k)
  unfolding collect_seps
  collect_seps-IsMatched ds_records used seps [] tag k h = inl h
  collect_seps-IsMatched ds_records used seps ((i, x) ∷ keys) tag k h =
      let deeper =
        λ (m : TagMap Dnskey) (l : List Ds). collect_seps-IsMatched ds_records l m keys tag k in
      elim (Option-cases (matching_ds lib ds_records x)) [
        | inl e ↦ elim (deeper seps used (ground arith)) [
          | inl a ↦ inl a
          | inr (t, (j, among), m) ↦ inr (t, (j, inr among), m)
        ]
        | inr (actual, e) ↦
            elim (deeper (put_tag seps (lib.key_tag x) x) (add_ds actual used) (ground arith)) [
              | inr (t, (j, among), m) ↦ inr (t, (j, inr among), m)
              | inl a ↦ elim (Bool-cases (lib.key_tag x == tag)) [
                | inl same ↦
                    let eq : x ≡ k = ground (arith, at_tag-put_tag seps (lib.key_tag x) x tag) in
                    inr (
                      rw (← eq) (ground arith),
                      (i, inl (ap (λ y. (i, y)) (sym eq))),
                      (actual, rw (← eq) e),
                    )
                | inr other ↦ inl (ground (arith, at_tag-put_tag seps (lib.key_tag x) x tag))
              ]
            ]
      ]

-- where the keys of a DNSKEY RR set come from that may sign it
pub record IsAnchored {W : Type 0} (lib : DnsLibrary) (look_up : LookUp W) (rr_set : List Rr)
    (signer : Text) (tag : ℕ) (k : Dnskey) : Type 0 where
  pub key_of : IsKeyOf lib rr_set tag k
  pub before : Resolver (Validating W)
  pub after : Resolver (Validating W)
  pub trace : List TraceStep
  pub trace' : List TraceStep
  pub ds_records : TagMap Ds
  pub fetched :
      fetch_ds_records lib look_up before signer trace
      ≡ some (after, found (records ds_records), trace')
  pub matched : IsMatched lib ds_records k

module _ {W : Type 0} (lib : DnsLibrary) (look_up : LookUp W) where
  -- what `findSEPs` has found
  pub record HasSeps (r r' : Resolver (Validating W)) (keys seps : TagMap Dnskey) (signer : Text)
      (t t' : List TraceStep) : Type 0 where
    pub after : Resolver (Validating W)
    pub ds_records : TagMap Ds
    pub fetched :
        fetch_ds_records lib look_up r signer t ≡ some (after, found (records ds_records), t')
    pub collected :
        seps ≡ (collect_seps lib ds_records after.world.validator.ds [] (lib.key_order keys)).1

  pub find_seps-HasSeps :
      (r r' : Resolver (Validating W)) (signer : Text) (keys seps : TagMap Dnskey)
      (t t' : List TraceStep)
      → find_seps lib look_up r signer keys t ≡ some (r', found seps, t')
      → HasSeps r r' keys seps signer t t'
  unfolding find_seps
  find_seps-HasSeps r r' signer keys seps t t' e =
      elim (Option-cases (fetch_ds_records lib look_up r signer t)) [
        | inl f ↦ absurd (ground arith)
        | inr ((r1, fetched, t1), f) ↦ elim (Fetched-cases fetched) [
          | inl (x, g) ↦ absurd (ground arith)
          | inr (d, g) ↦ elim (Delegation-cases d) [
            | inl n ↦ absurd (ground arith)
            | inr (m, n) ↦ record {
              after = r1;
              ds_records = m;
              fetched = ground arith;
              collected = ground arith;
            }
          ]
        ]
      ]

  module _
      (key_order_keeps : (m : TagMap Dnskey) (e : ℕ × Dnskey)
        → Among e (lib.key_order m)
        → Among e m) where
    HasSeps-IsAnchored :
        (r r' : Resolver (Validating W)) (rr_set : List Rr) (signer : Text) (t t' : List TraceStep)
        (keys seps : TagMap Dnskey) (tag : ℕ) (k : Dnskey)
        → collect_keys lib [] rr_set ≡ found keys
        → HasSeps r r' keys seps signer t t'
        → at_tag seps tag ≡ some k
        → IsAnchored lib look_up rr_set signer tag k
    unfolding at_tag
    HasSeps-IsAnchored r r' rr_set signer t t' keys seps tag k f has h =
        let start = has.after.world.validator.ds in
        let at : at_tag (collect_seps lib has.ds_records start [] (lib.key_order keys)).1 tag
            ≡ some k =
          ap (λ m. at_tag m tag) (sym has.collected) ∙ h in
        elim (collect_seps-IsMatched lib has.ds_records start [] (lib.key_order keys) tag k at) [
          | inl none_yet ↦ absurd (ground arith)
          | inr (tagged, (i, among), matched) ↦
              elim (collect_keys-IsKeyOf lib [] rr_set keys i k f
                (key_order_keeps keys (i, k) among)) [
                  | inl no_key ↦ elim no_key [ ]
                  | inr key ↦ record {
                    key_of = record { among = key.among; flag = key.flag; tag_is = tagged };
                    before = r;
                    after = has.after;
                    trace = t;
                    trace' = t';
                    ds_records = has.ds_records;
                    fetched = has.fetched;
                    matched = matched;
                  }
                ]
        ]

    -- A key that is found in a DNSKEY RR set belongs to the set, and the DS records of the signer
    -- vouch for it.
    pub find_seps_from_answer-IsAnchored :
        (r r' : Resolver (Validating W)) (rr_set : List Rr) (signer : Text) (t t' : List TraceStep)
        (seps : TagMap Dnskey) (tag : ℕ) (k : Dnskey)
        → find_seps_from_answer lib look_up r rr_set signer t ≡ some (r', found seps, t')
        → at_tag seps tag ≡ some k
        → IsAnchored lib look_up rr_set signer tag k × (t' ≡ [])
    unfolding find_seps_from_answer
    find_seps_from_answer-IsAnchored r r' rr_set signer t t' seps tag k e h =
        elim (Fetched-cases (collect_keys lib [] rr_set)) [
          | inl (x, f) ↦ absurd (ground arith)
          | inr (keys, f) ↦ elim (Option-cases (find_seps lib look_up r signer keys t)) [
            | inl g ↦ absurd (ground arith)
            | inr ((r1, fetched, t1), g) ↦ elim (Fetched-cases fetched) [
              | inl (x, y) ↦ absurd (ground arith)
              | inr (found_seps, y) ↦ (
                HasSeps-IsAnchored r r1 rr_set signer t t1 keys found_seps tag k f
                    (find_seps-HasSeps r r1 signer keys found_seps t t1 (ground arith))
                    (let same : seps ≡ found_seps = ground arith in
                      ap (λ m. at_tag m tag) (sym same) ∙ h),
                ground arith,
              )
            ]
          ]
        ]
