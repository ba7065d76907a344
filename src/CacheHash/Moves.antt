-- ===== src/CacheHash/Moves.antt =====
-- What an element at the front means for the rest: `MoveToFront`, `PushFront` and a written value.
use mathlib.Core.Logic.{if_pos}
use zdns.Prelude.{
  ℕ, ◌<◌, ◌≡◌, ◌≢◌, refl, ap, ◌∙◌, none, some, List, [], ◌∷◌, arith, All, ℕ_discrete,
}
use zdns.CacheHash.{Element, deref, remove, set_value, move_to_front}
use zdns.CacheHash.Elements.{Distinct, Below, All-deref, index, deref-index, fresh_key_index}

module _ {K V : Type 0} where
  abbrev pub Apart : K → ℕ → List (Element K V) → Type 0
  Apart k a l = All (λ (f : Element K V). (k ≢ f.key) × (a ≢ f.addr)) l

  abbrev pub at : ℕ → K → V → Element K V
  at a k v = record { addr = a; key = k; value = v }

  -- a removed element is apart from what stays
  Apart-remove :
      (a : ℕ) (l : List (Element K V)) (e : Element K V)
      → Distinct l
      → deref a l ≡ some e
      → Apart e.key a (remove a l)
  unfolding deref remove
  Apart-remove a [] e d f = tt
  Apart-remove a (x ∷ l) e d f = elim (ℕ_discrete a x.addr) [
    | yes p ↦ let q : x ≡ e = ground arith in rw (if_pos _ p, ← q, p) d.0
    | no p ↦
        let f' : deref a l ≡ some e = ground arith in
        let apart : ((x.key ≢ e.key) × (x.addr ≢ e.addr)) × (e.addr ≡ a) =
          All-deref (λ (g : Element K V). (x.key ≢ g.key) × (x.addr ≢ g.addr)) a l e d.0 f' in
        ground (arith, Apart-remove a l e d.1 f')
  ]

  deref-set_value :
      (a : ℕ) (k : K) (v : V) (l : List (Element K V)) (e : Element K V)
      → deref a l ≡ some e
      → deref a (set_value a k v l) ≡ some (at a k v)
  unfolding deref set_value
  deref-set_value a k v [] e f = ground arith
  deref-set_value a k v (x ∷ l) e f = ground (arith, deref-set_value a k v l e)

  remove-set_value :
      (a : ℕ) (k : K) (v : V) (l : List (Element K V)) → remove a (set_value a k v l) ≡ remove a l
  unfolding remove set_value
  remove-set_value a k v [] = refl
  remove-set_value a k v (x ∷ l) = ground (arith, remove-set_value a k v l)

  pub move_to_front_lem :
      (a : ℕ) (l : List (Element K V)) (e : Element K V)
      → deref a l ≡ some e
      → move_to_front a l ≡ e ∷ remove a l
  unfolding move_to_front
  move_to_front_lem a l e f = ground arith

  pub move_to_front-set_value :
      (a : ℕ) (k : K) (v : V) (l : List (Element K V)) (e : Element K V)
      → deref a l ≡ some e
      → move_to_front a (set_value a k v l) ≡ at a k v ∷ remove a l
  move_to_front-set_value a k v l e f =
      move_to_front_lem a (set_value a k v l) (at a k v) (deref-set_value a k v l e f)
      ∙ ap (◌∷◌ (at a k v)) (remove-set_value a k v l)

  Apart-fresh :
      (k : K) (n : ℕ) (l : List (Element K V))
      → All (λ (f : Element K V). k ≢ f.key) l
      → Below n l
      → Apart k n l
  Apart-fresh k n [] h b = tt
  Apart-fresh k n (x ∷ l) h b = ((h.0, omega arith), Apart-fresh k n l h.1 b.1)

  pub Below-suc : (n m : ℕ) (l : List (Element K V)) → n < m → Below n l → Below m l
  Below-suc n m [] lt b = tt
  Below-suc n m (x ∷ l) lt b = (omega arith, Below-suc n m l lt b.1)

module _ {K V : Type 0} (dec : Discrete K) where
  pub Distinct-touch :
      (k : K) (v : V) (l : List (Element K V)) (a : ℕ)
      → Distinct l
      → index dec k l ≡ some a
      → Apart k a (remove a l)
  Distinct-touch k v l a d f =
      let (w, found, _) = deref-index dec k l a d f in Apart-remove a l (at a k w) d found

  pub Distinct-push :
      (k : K) (n : ℕ) (l : List (Element K V)) → Below n l → index dec k l ≡ none → Apart k n l
  Distinct-push k n l b f = Apart-fresh k n l (fresh_key_index dec k l f) b
