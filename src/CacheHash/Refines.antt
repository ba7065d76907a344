-- ===== src/CacheHash/Refines.antt =====
-- The methods of src/internal/cachehash/cachehash.go against those of an ideal LRU list.
use mathlib.Core.List.{lookup}
use zdns.Prelude.{
  ℕ, ◌≡◌, ◌⊎◌, refl, sym, ◌∙◌, true, false, none, some, List, [], ◌∷◌, arith, leb, not, ◌&&◌, ◌==◌,
  length, inl, inr, Option-cases, Bool-cases,
}
use zdns.CacheHash.{
  Element, CacheHash, deref, eject, insert_new, upsert, get, get_no_move, has, delete,
}
use zdns.CacheHash.Elements.{
  entries, length-entries, index, deref-index, lookup-entries_absent, entries-remove,
}
use zdns.CacheHash.Lru.{drop_last, erase_key, erase_key_absent, lru_put, lru_get}
use zdns.CacheHash.Moves.{at, move_to_front_lem, move_to_front-set_value}
use zdns.CacheHash.Valid.{
  IsValid, detach, detach-IsValid, promote, promote-IsValid, insert_new-IsValid,
}
use zdns.CacheHash.Evict.{eject_lem, eject_empty}

module _ {K V : Type 0} where
  entries_empty : (l : List (Element K V)) → length l ≡ 0 → entries l ≡ drop_last (entries l)
  entries_empty [] e = refl
  entries_empty (x ∷ l) e = absurd (omega arith)

module _ {K V : Type 0} (dec : Discrete K) where
  module _ (c : CacheHash K V) (k : K) (h : IsValid dec c) where
    -- whether the key is in the map, and what that means for the list
    map-cases :
        ((c.h k ≡ none) × (lookup dec k (entries c.l) ≡ none))
        ⊎ ((a : ℕ) × (v : V) × (c.h k ≡ some a)
            × (index dec k c.l ≡ some a)
            × (deref a c.l ≡ some (at a k v))
            × (lookup dec k (entries c.l) ≡ some v))
    map-cases = elim (Option-cases (c.h k)) [
      | inl e ↦ inl (e, lookup-entries_absent dec k c.l (sym (h.indexed k) ∙ e))
      | inr (a, e) ↦
          let f : index dec k c.l ≡ some a = sym (h.indexed k) ∙ e in
          let (v, found, looked) = deref-index dec k c.l a h.distinct f in
          inr (a, v, e, f, found, looked)
    ]

    pub has_lem : has c k ≡ elim (lookup dec k (entries c.l)) [ none ↦ false | some v ↦ true ]
    unfolding has
    has_lem = elim map-cases [
      | inl (e, l) ↦ rw (e, l, has)
      | inr (a, v, e, f, d, l) ↦ rw (e, l, has)
    ]

    pub get_no_move_lem : get_no_move c k ≡ some (lookup dec k (entries c.l))
    unfolding get_no_move
    get_no_move_lem = elim map-cases [
      | inl (e, l) ↦ ground arith
      | inr (a, v, e, f, d, l) ↦ ground arith
    ]

    -- `Get` does not panic, returns what the entries hold, and moves a found key to the front.
    pub get_lem :
        (c' : CacheHash K V) × (get c k ≡ some (c', lookup dec k (entries c.l)))
        × IsValid dec c'
        × (entries c'.l ≡ lru_get dec k (entries c.l))
        × (c'.max_len ≡ c.max_len)
    unfolding get promote
    get_lem = elim map-cases [
      | inl (e, l) ↦ (c, ground arith, h, ground arith, refl)
      | inr (a, v, e, f, d, l) ↦ (
        promote dec c k v a,
        ground (arith, move_to_front_lem a c.l (at a k v) d),
        promote-IsValid dec c k v a h f,
        ground (arith, entries-remove dec k c.l a h.distinct f),
        refl,
      )
    ]

    detach-gone :
        (a : ℕ) → index dec k c.l ≡ some a → lookup dec k (entries (detach dec c k a).l) ≡ none
    unfolding detach
    detach-gone a f =
        let v = detach-IsValid dec c k a h f in
        lookup-entries_absent dec k (detach dec c k a).l (sym (v.indexed k) ∙ ground arith)

    -- `Delete` does not panic, returns what was held, and removes the key.
    pub delete_lem :
        (c' : CacheHash K V) × (delete dec c k ≡ some (c', lookup dec k (entries c.l)))
        × IsValid dec c'
        × (entries c'.l ≡ erase_key dec k (entries c.l))
        × (c'.max_len ≡ c.max_len)
        × (lookup dec k (entries c'.l) ≡ none)
    unfolding delete detach
    delete_lem = elim map-cases [
      | inl (e, l) ↦ (c, ground arith, h, sym (erase_key_absent dec k (entries c.l) l), refl, l)
      | inr (a, v, e, f, d, l) ↦ (
        detach dec c k a,
        ground arith,
        detach-IsValid dec c k a h f,
        entries-remove dec k c.l a h.distinct f,
        refl,
        detach-gone a f,
      )
    ]

    -- `Eject` on any valid cache
    eject_any :
        (c' : CacheHash K V) × (eject dec c ≡ some c')
        × IsValid dec c'
        × (entries c'.l ≡ drop_last (entries c.l))
        × (c'.max_len ≡ c.max_len)
        × (c.h k ≡ none → c'.h k ≡ none)
    eject_any = elim (Bool-cases (c.len == 0)) [
      | inl e ↦
          let z : c.len ≡ 0 = ground arith in
          (c, eject_empty dec c z, h, entries_empty c.l (omega (arith, h.counted)), refl, λ p. p)
      | inr e ↦
          let (c', f, ev) = eject_lem dec c h (ground arith) in
          (c', f, ev.valid, ev.entries_eq, ev.capacity, ev.absent k)
    ]

    -- `Upsert` does not panic. It reports whether the key was there and, for a new key, whether the
    -- cache was full; its entries are then those of the ideal LRU list.
    pub upsert_lem :
        (v : V)
        → (c' : CacheHash K V) × (upsert dec c k v
            ≡ some (c', has c k, not (has c k) && leb c.max_len c.len))
          × IsValid dec c'
          × (entries c'.l ≡ lru_put dec c.max_len k v (entries c.l))
          × (c'.max_len ≡ c.max_len)
    unfolding upsert has promote insert_new
    upsert_lem v = elim map-cases [
      | inr (a, w, e, f, d, l) ↦ (
        promote dec c k v a,
        ground (arith, move_to_front-set_value a k v c.l (at a k w) d),
        promote-IsValid dec c k v a h f,
        ground (arith, entries-remove dec k c.l a h.distinct f),
        refl,
      )
      | inl (e, l) ↦ elim (Bool-cases (leb c.max_len c.len)) [
        | inl full ↦
            let (c', ej, valid, ent, cap, abs) = eject_any in
            (
              insert_new dec c' k v,
              ground (arith, ej),
              insert_new-IsValid dec c' k v valid (sym (valid.indexed k) ∙ abs e),
              ground (arith, ent, length-entries c.l, h.counted),
              cap,
            )
        | inr room ↦ (
          insert_new dec c k v,
          ground arith,
          insert_new-IsValid dec c k v h (sym (h.indexed k) ∙ e),
          ground (arith, length-entries c.l, h.counted),
          refl,
        )
      ]
    ]
