-- ===== src/CacheHash/Recency.antt =====
-- A cache of src/internal/cachehash/cachehash.go against the history of its calls.
use mathlib.Core.List.{lookup}
use zdns.Prelude.{
  ℕ, zero, suc, ◌≤◌, ◌≡◌, refl, sym, ap, ◌∙◌, Option, none, some, List, [], ◌∷◌, arith, ◌>>=◌,
  length, take, inl, inr, Option-cases,
}
use zdns.CacheHash.{CacheHash, init, upsert, get}
use zdns.CacheHash.Elements.{entries}
use zdns.CacheHash.Valid.{IsValid, init-IsValid}
use zdns.CacheHash.Lru.{drop_last, erase_key, erase_key_absent, length-erase_key, lru_put, lru_get}
use zdns.CacheHash.Refines.{upsert_lem, get_lem}

pub data Call (K V : Type 0) : Type 0 where
  upserted : K → V → Call K V
  looked_up : K → Call K V

module _ {A : Type 0} where
  take-nil : (n : ℕ) → take {A = A} n [] ≡ []
  take-nil zero = refl
  take-nil (suc n) = refl

  pub take_of_length-le : (n : ℕ) (s : List A) → length s ≤ n → take n s ≡ s
  take_of_length-le zero [] h = refl
  take_of_length-le zero (x ∷ s) h = absurd (omega arith)
  take_of_length-le (suc n) [] h = refl
  take_of_length-le (suc n) (x ∷ s) h = ap (◌∷◌ x) (take_of_length-le n s (omega arith))

  pub length-take-le : (n : ℕ) (s : List A) → length (take n s) ≤ n
  length-take-le zero s = omega arith
  length-take-le (suc n) [] = omega arith
  length-take-le (suc n) (x ∷ s) = omega (arith, length-take-le n s)

  pub drop_last-take : (n : ℕ) (s : List A) → length s ≡ suc n → drop_last s ≡ take n s
  drop_last-take zero (x ∷ []) h = refl
  drop_last-take (suc n) (x ∷ y ∷ s) h = ap (◌∷◌ x) (drop_last-take n (y ∷ s) (omega arith))
  drop_last-take _ s h = absurd (omega arith)

module _ {K V : Type 0} (dec : Discrete K) where
  -- a call on the cache
  pub perform : CacheHash K V → Call K V → Option (CacheHash K V)
  perform c (upserted k v) = do (c', _, _) ← upsert dec c k v; some c'
  perform c (looked_up k) = do (c', _) ← get c k; some c'

  pub run : CacheHash K V → List (Call K V) → Option (CacheHash K V)
  unfolding perform
  run c [] = some c
  run c (call ∷ calls) = do c' ← perform c call; run c' calls

  -- The history: every entry ever stored, most recently used first. A look-up is a use if the key
  -- is among the first `n`.
  pub note : ℕ → List (K × V) → Call K V → List (K × V)
  note n s (upserted k v) = (k, v) ∷ erase_key dec k s
  note n s (looked_up k) = elim (lookup dec k (take n s)) [
    | none ↦ s
    | some v ↦ (k, v) ∷ erase_key dec k s
  ]

  pub history : ℕ → List (K × V) → List (Call K V) → List (K × V)
  history n s [] = s
  history n s (call ∷ calls) = history n (note n s call) calls

  take-erase_key :
      (n : ℕ) (k : K) (s : List (K × V))
      → take n (erase_key dec k (take (suc n) s)) ≡ take n (erase_key dec k s)
  take-erase_key zero k s = refl
  take-erase_key (suc n) k [] = refl
  take-erase_key (suc n) k ((j, v) ∷ s) =
      ground (arith, take-erase_key n k s, take_of_length-le _ _ (length-take-le (suc n) s))

  -- One upsert on the first `n + 1` of a history gives the first `n + 1` of the next history.
  lru_put-take :
      (n : ℕ) (k : K) (v : V) (s : List (K × V))
      → lru_put dec (suc n) k v (take (suc n) s) ≡ take (suc n) ((k, v) ∷ erase_key dec k s)
  lru_put-take n k v s = elim (Option-cases (lookup dec k (take (suc n) s))) [
    | inl e ↦ ground (
      arith,
      take-erase_key n k s,
      erase_key_absent dec k (take (suc n) s) e,
      length-take-le (suc n) s,
      drop_last-take n (take (suc n) s),
      take_of_length-le n (take (suc n) s),
    )
    | inr (w, e) ↦ ground (
      arith,
      take-erase_key n k s,
      length-erase_key dec k (take (suc n) s) w e,
      length-take-le (suc n) s,
      take_of_length-le n (erase_key dec k (take (suc n) s)),
    )
  ]

  lru_get-take :
      (n : ℕ) (k : K) (s : List (K × V))
      → lru_get dec k (take (suc n) s) ≡ take (suc n) (note (suc n) s (looked_up k))
  unfolding note
  lru_get-take n k s = elim (Option-cases (lookup dec k (take (suc n) s))) [
    | inl e ↦ ground arith
    | inr (w, e) ↦ ground (
      arith,
      take-erase_key n k s,
      length-erase_key dec k (take (suc n) s) w e,
      length-take-le (suc n) s,
      take_of_length-le n (erase_key dec k (take (suc n) s)),
    )
  ]

  -- the cache is valid and holds the first `n` entries of the history
  pub record Tracks (n : ℕ) (c : CacheHash K V) (s : List (K × V)) : Type 0 where
    pub valid : IsValid dec c
    pub capacity : c.max_len ≡ n
    pub window : entries c.l ≡ take n s

  perform-Tracks :
      (n : ℕ) (c : CacheHash K V) (s : List (K × V)) (call : Call K V)
      → Tracks (suc n) c s
      → (c' : CacheHash K V) × (perform c call ≡ some c') × Tracks (suc n) c' (note (suc n) s call)
  unfolding perform note
  perform-Tracks n c s (upserted k v) t =
      let (c', done, valid, ent, cap) = upsert_lem dec c k t.valid v in
      (
        c',
        rw done,
        record {
          valid = valid;
          capacity = cap ∙ t.capacity;
          window = ent ∙ rw (t.window, t.capacity) (lru_put-take n k v s);
        },
      )
  perform-Tracks n c s (looked_up k) t =
      let (c', done, valid, ent, cap) = get_lem dec c k t.valid in
      (
        c',
        rw done,
        record {
          valid = valid;
          capacity = cap ∙ t.capacity;
          window = ent ∙ rw t.window (unfold note in lru_get-take n k s);
        },
      )

  -- From a cache of `n + 1` places that holds the first of a history, every run of calls ends
  -- without a panic in a valid cache that holds exactly the `n + 1` most recently used entries, in
  -- order.
  pub run-Tracks :
      (n : ℕ) (calls : List (Call K V)) (c : CacheHash K V) (s : List (K × V))
      → Tracks (suc n) c s
      → (c' : CacheHash K V) × (run c calls ≡ some c') × Tracks (suc n) c' (history (suc n) s calls)
  unfolding run history
  run-Tracks n [] c s t = (c, refl, t)
  run-Tracks n (call ∷ calls) c s t =
      let (c', done, t') = perform-Tracks n c s call t in
      let (c'', rest, t'') = run-Tracks n calls c' (note (suc n) s call) t' in
      (c'', rw done rest, t'')

  pub init-Tracks : (n : ℕ) → Tracks n (init {K = K} {V = V} n) []
  unfolding init
  init-Tracks n = record { valid = init-IsValid dec n; capacity = refl; window = sym (take-nil n) }
