-- ===== src/CacheHash/Capacity.antt =====
-- The capacity of a cache of src/internal/cachehash/cachehash.go and the number of its entries.
use Prim.Native.Nat.{max}
use mathlib.Core.List.{lookup}
use zdns.Prelude.{
  ℕ, ◌≤◌, ◌≡◌, refl, ap, ◌∙◌, true, false, some, List, [], ◌∷◌, arith, leb, not, ◌&&◌, length, inl,
  inr, Option-cases,
}
use zdns.CacheHash.{Element, CacheHash, eject, upsert, has}
use zdns.CacheHash.Elements.{entries, length-entries}
use zdns.CacheHash.Valid.{IsValid}
use zdns.CacheHash.Refines.{has_lem, upsert_lem}
use zdns.CacheHash.Lru.{length-drop_last, length-erase_key, lru_put}

entries_nil : {K V : Type 0} (l : List (Element K V)) → length l ≡ 0 → entries l ≡ []
entries_nil [] e = refl
entries_nil (x ∷ l) e = absurd (omega arith)

module _ {K V : Type 0} (dec : Discrete K) where
  length-lru_put :
      (n : ℕ) (k : K) (v : V) (s : List (K × V))
      → length s ≤ max 1 n
      → length (lru_put dec n k v s) ≤ max 1 n
  length-lru_put n k v s h = elim (Option-cases (lookup dec k s)) [
    | inl e ↦ ground (arith, length-drop_last s)
    | inr (w, e) ↦ ground (arith, length-erase_key dec k s w e)
  ]

  lru_put_one :
      (n : ℕ) (k : K) (v : V) (s : List (K × V)) → s ≡ [] → lru_put dec n k v s ≡ (k, v) ∷ []
  unfolding lookup
  lru_put_one n k v [] e = ground arith
  lru_put_one n k v (x ∷ s) e = cc

  module _ (c : CacheHash K V) (k : K) (v : V) (h : IsValid dec c) where
    -- An upsert never takes a cache beyond its capacity, or beyond one entry if that is zero.
    pub upsert-le-max :
        c.len ≤ max 1 c.max_len
        → (c' : CacheHash K V) × (upsert dec c k v
            ≡ some (c', has c k, not (has c k) && leb c.max_len c.len))
          × (c'.len ≤ max 1 c'.max_len)
    upsert-le-max b =
        let (c', done, valid, ent, cap) = upsert_lem dec c k h v in
        (
          c',
          done,
          omega (
            arith,
            valid.counted,
            length-entries c'.l,
            length-entries c.l,
            h.counted,
            cap,
            ap length ent,
            length-lru_put c.max_len k v (entries c.l),
          ),
        )

    -- In an empty cache of capacity zero an upsert leaves a valid cache with its entry and no other,
    -- evicts nothing, and reports an eviction.
    pub upsert_zero_capacity :
        c.max_len ≡ 0
        → c.len ≡ 0
        → (c' : CacheHash K V) × (upsert dec c k v ≡ some (c', false, true))
          × IsValid dec c'
          × (c'.len ≡ 1)
          × (entries c'.l ≡ (k, v) ∷ [])
          × (eject dec c ≡ some c)
    unfolding eject lookup
    upsert_zero_capacity m z =
        let none_held : entries c.l ≡ [] = entries_nil c.l (omega (arith, h.counted)) in
        let missed : has c k ≡ false = has_lem dec c k h ∙ rw none_held refl in
        let (c', done, valid, ent, cap) = upsert_lem dec c k h v in
        let one : entries c'.l ≡ (k, v) ∷ [] =
          ent ∙ lru_put_one c.max_len k v (entries c.l) none_held in
        (
          c',
          ground (arith, done, missed),
          valid,
          omega (arith, valid.counted, length-entries c'.l, ap length one),
          one,
          ground arith,
        )
