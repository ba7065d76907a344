-- ===== src/CacheHash/Valid.antt =====
-- The invariant of a `CacheHash`: the map and the list agree, and `len` counts the list.
use zdns.Prelude.{
  ℕ, suc, ◌-◌, ◌<◌, ◌≡◌, refl, none, some, ◌∷◌, arith, length, Option-cases, inl, inr,
}
use zdns.CacheHash.{Element, CacheHash, remove, init, notify, map_set, map_delete, insert_new}
use zdns.CacheHash.Elements.{
  Distinct, Below, All-deref, All-remove, Distinct-remove, length-remove, index, deref-index,
  index-remove,
}
use zdns.CacheHash.Moves.{at, Below-suc, Distinct-touch, Distinct-push}

module _ {K V : Type 0} (dec : Discrete K) where
  pub record IsValid (c : CacheHash K V) : Type 0 where
    pub counted : c.len ≡ length c.l
    pub distinct : Distinct c.l
    pub allocated : Below c.fresh c.l
    pub indexed : (k : K) → c.h k ≡ index dec k c.l

  pub init-IsValid : (n : ℕ) → IsValid (init {K = K} {V = V} n)
  unfolding init
  init-IsValid n = record { counted = refl; distinct = tt; allocated = tt; indexed = λ k. refl }

  -- taking an element out of the map and of the list
  unfoldable pub detach : CacheHash K V → K → ℕ → CacheHash K V
  unfolding map_delete remove
  detach c k a = record c { h = map_delete dec c.h k; l = remove a c.l; len = c.len - 1 }

  pub detach-IsValid :
      (c : CacheHash K V) (k : K) (a : ℕ)
      → IsValid c
      → index dec k c.l ≡ some a
      → IsValid (detach c k a)
  unfolding detach map_delete
  detach-IsValid c k a h f =
      let (v, found, _) = deref-index dec k c.l a h.distinct f in
      record {
        counted = omega (arith, h.counted, length-remove a c.l (at a k v) found);
        distinct = Distinct-remove a c.l h.distinct;
        allocated = All-remove (λ (e : Element K V). e.addr < c.fresh) a c.l h.allocated;
        indexed = λ j. rw (index-remove dec k j c.l a h.distinct f, h.indexed j);
      }

  pub notify-IsValid : (c : CacheHash K V) (k : K) (v : V) → IsValid c → IsValid (notify c k v)
  unfolding notify
  notify-IsValid c k v h = elim (Option-cases c.eject_cb) [
    | inl e ↦ rw (e, notify) h
    | inr (cb, e) ↦
        rw (e, notify)
          (record {
            counted = h.counted;
            distinct = h.distinct;
            allocated = h.allocated;
            indexed = h.indexed;
          })
  ]

  -- the list with the element of a known key at its front
  unfoldable pub promote : CacheHash K V → K → V → ℕ → CacheHash K V
  promote c k v a = record c { l = at a k v ∷ remove a c.l }

  pub promote-IsValid :
      (c : CacheHash K V) (k : K) (v : V) (a : ℕ)
      → IsValid c
      → index dec k c.l ≡ some a
      → IsValid (promote c k v a)
  unfolding promote
  promote-IsValid c k v a h f =
      let (w, found, _) = deref-index dec k c.l a h.distinct f in
      record {
        counted = omega (arith, h.counted, length-remove a c.l (at a k w) found);
        distinct = (Distinct-touch dec k v c.l a h.distinct f, Distinct-remove a c.l h.distinct);
        allocated = (
          (All-deref (λ (e : Element K V). e.addr < c.fresh) a c.l (at a k w) h.allocated found).0,
          All-remove (λ (e : Element K V). e.addr < c.fresh) a c.l h.allocated,
        );
        indexed = λ j. ground (arith, h.indexed j, index-remove dec k j c.l a h.distinct f, f);
      }

  pub insert_new-IsValid :
      (c : CacheHash K V) (k : K) (v : V)
      → IsValid c
      → index dec k c.l ≡ none
      → IsValid (insert_new dec c k v)
  unfolding insert_new map_set
  insert_new-IsValid c k v h f = record {
    counted = omega (arith, h.counted);
    distinct = (Distinct-push dec k c.fresh c.l h.allocated f, h.distinct);
    allocated = (omega arith, Below-suc c.fresh (suc c.fresh) c.l (omega arith) h.allocated);
    indexed = λ j. ground (arith, h.indexed j);
  }
