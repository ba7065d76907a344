-- ===== src/CacheHash/Elements.antt =====
-- The lists of elements: the address at which a key stands, and what the list operations do to it.
use mathlib.Core.List.{lookup}
use zdns.Prelude.{
  ℕ, suc, ◌+◌, ◌<◌, ◌≡◌, ◌≢◌, refl, ap, sym, ◌∙◌, Option, none, some, List, [], ◌∷◌, ite, arith,
  All, length, ℕ_discrete,
}
use zdns.CacheHash.Lru.{erase_key}
use zdns.CacheHash.{Element, deref, remove, back}

module _ {K V : Type 0} where
  -- no two elements share a key or an address
  abbrev pub Distinct : List (Element K V) → Type 0
  Distinct [] = Unit
  Distinct (e ∷ l) = All (λ f. (e.key ≢ f.key) × (e.addr ≢ f.addr)) l × Distinct l

  abbrev pub Below : ℕ → List (Element K V) → Type 0
  Below n l = All (λ e. e.addr < n) l

  abbrev pub entries : List (Element K V) → List (K × V)
  entries [] = []
  entries (e ∷ l) = (e.key, e.value) ∷ entries l

  pub All-remove {κ} :
      (P : Element K V → Type κ) (a : ℕ) (l : List (Element K V)) → All P l → All P (remove a l)
  unfolding remove
  All-remove P a [] h = h
  All-remove P a (e ∷ l) h = ground (arith, All-remove P a l)

  pub Distinct-remove : (a : ℕ) (l : List (Element K V)) → Distinct l → Distinct (remove a l)
  unfolding remove
  Distinct-remove a [] d = d
  Distinct-remove a (e ∷ l) d = ground (
    arith,
    Distinct-remove a l,
    All-remove (λ (f : Element K V). (e.key ≢ f.key) × (e.addr ≢ f.addr)) a l,
  )

  pub All-deref {κ} :
      (P : Element K V → Type κ) (a : ℕ) (l : List (Element K V)) (e : Element K V)
      → All P l
      → deref a l ≡ some e
      → P e × (e.addr ≡ a)
  unfolding deref
  All-deref P a [] e h f = ground arith
  All-deref P a (x ∷ l) e h f = ground (arith, All-deref P a l e)

  pub length-remove :
      (a : ℕ) (l : List (Element K V)) (e : Element K V)
      → deref a l ≡ some e
      → length (remove a l) + 1 ≡ length l
  unfolding deref remove
  length-remove a [] e f = ground arith
  length-remove a (x ∷ l) e f = ground (arith, length-remove a l e)

  pub length-entries : (l : List (Element K V)) → length (entries l) ≡ length l
  length-entries [] = refl
  length-entries (e ∷ l) = ap suc (length-entries l)

  pub deref-back :
      (l : List (Element K V)) (e : Element K V)
      → Distinct l
      → back l ≡ some e
      → deref e.addr l ≡ some e
  unfolding deref back
  deref-back [] e d f = ground arith
  deref-back (x ∷ []) e d f = ground arith
  deref-back (x ∷ y ∷ l) e d f =
      let ih : deref e.addr (y ∷ l) ≡ some e = deref-back (y ∷ l) e d.1 f in
      ground (
        arith,
        ih,
        All-deref (λ (g : Element K V). (x.key ≢ g.key) × (x.addr ≢ g.addr)) e.addr (y ∷ l) e d.0
            ih,
      )

module _ {K V : Type 0} (dec : Discrete K) where
  -- the address of the first element that holds the key
  abbrev pub index : K → List (Element K V) → Option ℕ
  index k [] = none
  index k (e ∷ l) = ite (dec k e.key) (some e.addr) (index k l)

  -- an indexed key has an element, at the address, with the key and the value of the entries
  pub deref-index :
      (k : K) (l : List (Element K V)) (a : ℕ)
      → Distinct l
      → index k l ≡ some a
      → (v : V) × (deref a l ≡ some (record { addr = a; key = k; value = v }))
        × (lookup dec k (entries l) ≡ some v)
  unfolding deref lookup
  deref-index k [] a d f = ground arith
  deref-index k (x ∷ l) a d f = elim (dec k x.key) [
    | yes p ↦ (x.value, ground arith, ground arith)
    | no p ↦
        let (v, found, looked) = deref-index k l a d.1 (ground arith) in
        (
          v,
          ground (
            arith,
            found,
            All-deref (λ (g : Element K V). (x.key ≢ g.key) × (x.addr ≢ g.addr)) a l _ d.0 found,
          ),
          ground (arith, looked),
        )
  ]

  pub index_of-deref :
      (a : ℕ) (l : List (Element K V)) (e : Element K V)
      → Distinct l
      → deref a l ≡ some e
      → index e.key l ≡ some a
  unfolding deref
  index_of-deref a [] e d f = ground arith
  index_of-deref a (x ∷ l) e d f = elim (ℕ_discrete a x.addr) [
    | yes p ↦ ground arith
    | no p ↦
        let f' : deref a l ≡ some e = ground arith in
        ground (
          arith,
          index_of-deref a l e d.1 f',
          All-deref (λ (g : Element K V). (x.key ≢ g.key) × (x.addr ≢ g.addr)) a l e d.0 f',
        )
  ]

  pub lookup-entries_absent :
      (k : K) (l : List (Element K V)) → index k l ≡ none → lookup dec k (entries l) ≡ none
  unfolding lookup
  lookup-entries_absent k [] f = refl
  lookup-entries_absent k (x ∷ l) f = ground (arith, lookup-entries_absent k l)

  pub entries-remove :
      (k : K) (l : List (Element K V)) (a : ℕ)
      → Distinct l
      → index k l ≡ some a
      → entries (remove a l) ≡ erase_key dec k (entries l)
  unfolding remove
  entries-remove k [] a d f = ground arith
  entries-remove k (x ∷ l) a d f = elim (dec k x.key) [
    | yes p ↦ ground arith
    | no p ↦
        let f' : index k l ≡ some a = ground arith in
        let (v, found, looked) = deref-index k l a d.1 f' in
        ground (
          arith,
          entries-remove k l a d.1 f',
          All-deref (λ (g : Element K V). (x.key ≢ g.key) × (x.addr ≢ g.addr)) a l _ d.0 found,
        )
  ]

  pub index_fresh_key :
      (k : K) (l : List (Element K V)) → All (λ (f : Element K V). k ≢ f.key) l → index k l ≡ none
  index_fresh_key k [] h = refl
  index_fresh_key k (x ∷ l) h = ground (arith, index_fresh_key k l h.1)

  All-key :
      (i k : K) (a : ℕ) (l : List (Element K V))
      → All (λ f. (i ≢ f.key) × (a ≢ f.addr)) l
      → k ≡ i
      → All (λ (f : Element K V). k ≢ f.key) l
  All-key i k a [] h e = tt
  All-key i k a (x ∷ l) h e = (λ p. h.0.0 (sym e ∙ p), All-key i k a l h.1 e)

  pub fresh_key_index :
      (k : K) (l : List (Element K V)) → index k l ≡ none → All (λ (f : Element K V). k ≢ f.key) l
  fresh_key_index k [] h = tt
  fresh_key_index k (x ∷ l) h = ground (arith, fresh_key_index k l)

  pub index-remove :
      (k j : K) (l : List (Element K V)) (a : ℕ)
      → Distinct l
      → index k l ≡ some a
      → index j (remove a l) ≡ ite (dec k j) none (index j l)
  unfolding remove
  index-remove k j [] a d f = ground arith
  index-remove k j (x ∷ l) a d f = elim (dec k x.key) [
    | yes p ↦ ground (arith, index_fresh_key k l (All-key x.key k x.addr l d.0 p))
    | no p ↦
        let f' : index k l ≡ some a = ground arith in
        let (v, found, looked) = deref-index k l a d.1 f' in
        ground (
          arith,
          index-remove k j l a d.1 f',
          All-deref (λ (g : Element K V). (x.key ≢ g.key) × (x.addr ≢ g.addr)) a l _ d.0 found,
        )
  ]
