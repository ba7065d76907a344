-- ===== src/CacheHash/Lru.antt =====
-- The ideal LRU list that a `CacheHash` stands for: the entries, most recent first.
use mathlib.Core.List.{lookup}
use zdns.Prelude.{
  ℕ, ◌+◌, ◌-◌, ◌≡◌, ◌≢◌, ◌⊎◌, ◌<◌, refl, ap, inl, inr, Option-cases, Option, none, some, List, [],
  ◌∷◌, ite, arith, leb, if◌then◌else◌, length,
}

module _ {A : Type 0} where
  abbrev pub drop_last : List A → List A
  drop_last [] = []
  drop_last (x ∷ []) = []
  drop_last (x ∷ y ∷ s) = x ∷ drop_last (y ∷ s)

  abbrev pub last? : List A → Option A
  last? [] = none
  last? (x ∷ []) = some x
  last? (x ∷ y ∷ s) = last? (y ∷ s)

  pub length-drop_last : (s : List A) → length (drop_last s) ≡ length s - 1
  length-drop_last [] = omega arith
  length-drop_last (x ∷ []) = omega arith
  length-drop_last (x ∷ y ∷ s) = omega (arith, length-drop_last (y ∷ s))

module _ {K V : Type 0} (dec : Discrete K) where
  -- the entries without the first of the key
  abbrev pub erase_key : K → List (K × V) → List (K × V)
  erase_key k [] = []
  erase_key k ((j, v) ∷ s) = ite (dec k j) s ((j, v) ∷ erase_key k s)

  abbrev pub lru_put : ℕ → K → V → List (K × V) → List (K × V)
  lru_put n k v s = elim (lookup dec k s) [
    | some w ↦ (k, v) ∷ erase_key k s
    | none ↦ (k, v) ∷ (if leb n (length s) then drop_last s else s)
  ]

  abbrev pub lru_get : K → List (K × V) → List (K × V)
  lru_get k s = elim (lookup dec k s) [ some v ↦ (k, v) ∷ erase_key k s | none ↦ s ]

  pub erase_key_absent : (k : K) (s : List (K × V)) → lookup dec k s ≡ none → erase_key k s ≡ s
  unfolding lookup
  erase_key_absent k [] e = refl
  erase_key_absent k ((j, v) ∷ s) e = ground (arith, erase_key_absent k s)

  pub length-erase_key :
      (k : K) (s : List (K × V)) (v : V)
      → lookup dec k s ≡ some v
      → length (erase_key k s) + 1 ≡ length s
  unfolding lookup
  length-erase_key k [] v e = ground arith
  length-erase_key k ((j, w) ∷ s) v e = ground (arith, length-erase_key k s v)

  pub lookup-erase_key :
      (k j : K) (s : List (K × V)) → j ≢ k → lookup dec j (erase_key k s) ≡ lookup dec j s
  unfolding lookup
  lookup-erase_key k j [] ne = refl
  lookup-erase_key k j ((i, w) ∷ s) ne = ground (arith, lookup-erase_key k j s ne)

  -- moving an entry to the front changes no look-up
  pub lookup-lru_get : (k j : K) (s : List (K × V)) → lookup dec j (lru_get k s) ≡ lookup dec j s
  unfolding lookup
  lookup-lru_get k j s = elim (Option-cases (lookup dec k s)) [
    | inl e ↦ ground arith
    | inr (v, e) ↦ elim (dec j k) [
      | yes p ↦ ground (arith, ap (λ i. lookup dec i s) p)
      | no p ↦ ground (arith, lookup-erase_key k j s p)
    ]
  ]

  pub lookup-lru_put_self :
      (n : ℕ) (k : K) (v : V) (s : List (K × V)) → lookup dec k (lru_put n k v s) ≡ some v
  unfolding lookup
  lookup-lru_put_self n k v s = ground arith

  -- a key that stays: one of a list that evicts nothing
  pub lookup-lru_put_ne :
      (n : ℕ) (k j : K) (v : V) (s : List (K × V))
      → j ≢ k
      → (lookup dec k s ≢ none) ⊎ (length s < n)
      → lookup dec j (lru_put n k v s) ≡ lookup dec j s
  unfolding lookup
  lookup-lru_put_ne n k j v s ne room = ground (arith, lookup-erase_key k j s ne)

  lookup-drop_last :
      (j : K) (w : V) (s : List (K × V))
      → lookup dec j (drop_last s) ≡ some w
      → lookup dec j s ≡ some w
  unfolding lookup
  lookup-drop_last j w [] e = cc
  lookup-drop_last j w (x ∷ []) e = cc
  lookup-drop_last j w (x ∷ y ∷ s) e = ground (arith, lookup-drop_last j w (y ∷ s))

  -- what is held of another key after a put was held before
  pub lookup-lru_put_old :
      (n : ℕ) (k j : K) (v w : V) (s : List (K × V))
      → j ≢ k
      → lookup dec j (lru_put n k v s) ≡ some w
      → lookup dec j s ≡ some w
  unfolding lookup
  lookup-lru_put_old n k j v w s ne e =
      ground (arith, lookup-erase_key k j s ne, lookup-drop_last j w s)
