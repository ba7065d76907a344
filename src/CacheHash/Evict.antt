-- ===== src/CacheHash/Evict.antt =====
-- `Eject` of src/internal/cachehash/cachehash.go and its callback.
use zdns.Prelude.{ℕ, ◌<◌, ◌≡◌, ◌≢◌, refl, none, some, List, [], ◌∷◌, ◌++◌, arith, length}
use zdns.CacheHash.{Element, CacheHash, remove, back, notify, map_delete, eject}
use zdns.CacheHash.Elements.{Distinct, entries, deref-back, index_of-deref, All-deref}
use zdns.CacheHash.Lru.{drop_last, last?}
use zdns.CacheHash.Valid.{IsValid, detach, detach-IsValid, notify-IsValid}

module _ {K V : Type 0} where
  pub back-last? :
      (l : List (Element K V)) (e : Element K V)
      → back l ≡ some e
      → last? (entries l) ≡ some (e.key, e.value)
  unfolding back
  back-last? [] e f = ground arith
  back-last? (x ∷ []) e f = ground arith
  back-last? (x ∷ y ∷ l) e f = back-last? (y ∷ l) e f

  pub back_total : (l : List (Element K V)) → 0 < length l → (e : Element K V) × (back l ≡ some e)
  unfolding back
  back_total [] h = elim h [ ]
  back_total (x ∷ []) h = (x, refl)
  back_total (x ∷ y ∷ l) h = back_total (y ∷ l) (omega arith)

  -- the calls of the callback that an eviction adds
  abbrev pub notified : CacheHash K V → List (ℕ × K × V)
  notified c = elim c.eject_cb [
    | none ↦ c.calls
    | some cb ↦ elim (last? (entries c.l)) [
      | none ↦ c.calls
      | some e ↦ c.calls ++ (cb, e.0, e.1) ∷ []
    ]
  ]

module _ {K V : Type 0} (dec : Discrete K) where
  entries-remove-back :
      (l : List (Element K V)) (e : Element K V)
      → Distinct l
      → back l ≡ some e
      → entries (remove e.addr l) ≡ drop_last (entries l)
  unfolding back remove
  entries-remove-back [] e d f = ground arith
  entries-remove-back (x ∷ []) e d f = ground arith
  entries-remove-back (x ∷ y ∷ l) e d f =
      let found = deref-back (y ∷ l) e d.1 f in
      ground (
        arith,
        entries-remove-back (y ∷ l) e d.1 f,
        All-deref (λ (g : Element K V). (x.key ≢ g.key) × (x.addr ≢ g.addr)) e.addr (y ∷ l) e d.0
            found,
      )

  -- what an eviction does to a cache
  pub record Evicts (c c' : CacheHash K V) : Type 0 where
    pub valid : IsValid dec c'
    pub entries_eq : entries c'.l ≡ drop_last (entries c.l)
    pub capacity : c'.max_len ≡ c.max_len
    pub callback : c'.eject_cb ≡ c.eject_cb
    pub calls_eq : c'.calls ≡ notified c
    pub absent : (k : K) → c.h k ≡ none → c'.h k ≡ none

  l-notify : (c : CacheHash K V) (k : K) (v : V) → (notify c k v).l ≡ c.l
  unfolding notify
  l-notify c k v = ground arith

  detach-back-Evicts :
      (c : CacheHash K V) (e : Element K V)
      → IsValid dec c
      → back c.l ≡ some e
      → Evicts c (detach dec (notify c e.key e.value) e.key e.addr)
  unfolding detach notify map_delete
  detach-back-Evicts c e h f = record {
    valid =
        detach-IsValid dec (notify c e.key e.value) e.key e.addr
          (notify-IsValid dec c e.key e.value h)
          (rw l-notify
            (index_of-deref dec e.addr c.l e h.distinct (deref-back c.l e h.distinct f)));
    entries_eq = rw l-notify (entries-remove-back c.l e h.distinct f);
    capacity = ground arith;
    callback = ground arith;
    calls_eq = ground (arith, back-last? c.l e f);
    absent = λ k p. ground arith;
  }

  -- A valid cache that is not empty evicts its least recent entry, tells the callback, and stays
  -- valid.
  pub eject_lem :
      (c : CacheHash K V)
      → IsValid dec c
      → 0 < c.len
      → (c' : CacheHash K V) × (eject dec c ≡ some c') × Evicts c c'
  unfolding eject detach
  eject_lem c h pos =
      let (e, f) = back_total c.l (omega (arith, h.counted)) in
      (
        detach dec (notify c e.key e.value) e.key e.addr,
        ground (arith, f),
        detach-back-Evicts c e h f,
      )

  -- an empty cache has nothing to evict
  pub eject_empty : (c : CacheHash K V) → c.len ≡ 0 → eject dec c ≡ some c
  unfolding eject
  eject_empty c e = ground arith
