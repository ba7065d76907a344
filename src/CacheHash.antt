-- ===== src/CacheHash.antt =====
-- src/internal/cachehash/cachehash.go: an LRU cache made of a Go map and a `container/list`.
-- A `*list.Element` is its address; `l` holds the elements of the list, front first, and `h` is the
-- map from a key to the address of its element. `none` is a panic (a nil or dangling element). The
-- mutex is not modelled: every method here runs with the lock of its cache held by the caller.
pub mod Lru
pub mod Elements
pub mod Moves
pub mod Valid
pub mod Evict
pub mod Refines
pub mod Recency
pub mod Capacity
use zdns.Prelude.{
  ℕ, suc, ◌+◌, ◌-◌, Bool, true, false, Option, none, some, List, [], ◌∷◌, ◌++◌, ite, leb, ◌==◌,
  if◌then◌else◌, ◌>>=◌, ℕ_discrete,
}

-- `list.Element` with its `Value`, which is always a `keyValue`
pub record Element (K V : Type 0) : Type 0 where
  pub addr : ℕ
  pub key : K
  pub value : V

pub record CacheHash (K V : Type 0) : Type 0 where
  pub h : K → Option ℕ
  pub l : List (Element K V)
  pub len : ℕ
  pub max_len : ℕ
  -- the callback, named by a number, and the calls of callbacks made so far
  pub eject_cb : Option ℕ
  pub calls : List (ℕ × K × V)
  -- the address that the next `PushFront` allocates
  pub fresh : ℕ

module _ {K V : Type 0} where
  -- reading through an element's address
  unfoldable pub deref : ℕ → List (Element K V) → Option (Element K V)
  deref a [] = none
  deref a (e ∷ l) = ite (ℕ_discrete a e.addr) (some e) (deref a l)

  -- list.Remove
  unfoldable pub remove : ℕ → List (Element K V) → List (Element K V)
  remove a [] = []
  remove a (e ∷ l) = ite (ℕ_discrete a e.addr) l (e ∷ remove a l)

  -- list.MoveToFront
  unfoldable pub move_to_front : ℕ → List (Element K V) → List (Element K V)
  unfolding deref remove
  move_to_front a l = elim (deref a l) [ none ↦ l | some e ↦ e ∷ remove a l ]

  -- list.Back and list.Front
  unfoldable pub back : List (Element K V) → Option (Element K V)
  back [] = none
  back (e ∷ []) = some e
  back (e ∷ f ∷ l) = back (f ∷ l)

  unfoldable pub front : List (Element K V) → Option (Element K V)
  front [] = none
  front (e ∷ l) = some e

  -- `e.Value = keyValue{k, v}`
  unfoldable pub set_value : ℕ → K → V → List (Element K V) → List (Element K V)
  set_value a k v [] = []
  set_value a k v (e ∷ l) =
      ite (ℕ_discrete a e.addr) (record { addr = a; key = k; value = v } ∷ l)
        (e ∷ set_value a k v l)

  unfoldable pub init : ℕ → CacheHash K V
  init max_len = record {
    h = λ k. none;
    l = [];
    len = 0;
    max_len = max_len;
    eject_cb = none;
    calls = [];
    fresh = 0;
  }

  -- `if c.ejectCB != nil { c.ejectCB(kv.Key, kv.Value) }`
  unfoldable pub notify : CacheHash K V → K → V → CacheHash K V
  notify c k v = elim c.eject_cb [
    | none ↦ c
    | some cb ↦ record c { calls = c.calls ++ (cb, k, v) ∷ [] }
  ]

  unfoldable pub first : CacheHash K V → Option (Option (K × V))
  unfolding front
  first c = if c.len == 0 then some none else do e ← front c.l; some (some (e.key, e.value))

  unfoldable pub last : CacheHash K V → Option (Option (K × V))
  unfolding back
  last c = if c.len == 0 then some none else do e ← back c.l; some (some (e.key, e.value))

  unfoldable pub size : CacheHash K V → ℕ
  size c = c.len

  unfoldable pub register_cb : CacheHash K V → ℕ → CacheHash K V
  register_cb c cb = record c { eject_cb = some cb }

  -- a found value, or `none` for the results `nil, false`
  unfoldable pub get : CacheHash K V → K → Option (CacheHash K V × Option V)
  unfolding deref move_to_front
  get c k = elim (c.h k) [
    | none ↦ some (c, none)
    | some a ↦ do e ← deref a c.l; some (record c { l = move_to_front a c.l }, some e.value)
  ]

  unfoldable pub get_no_move : CacheHash K V → K → Option (Option V)
  unfolding deref
  get_no_move c k = elim (c.h k) [
    | none ↦ some none
    | some a ↦ do e ← deref a c.l; some (some e.value)
  ]

  unfoldable pub has : CacheHash K V → K → Bool
  has c k = elim (c.h k) [ none ↦ false | some a ↦ true ]

module _ {K : Type 0} (dec : Discrete K) where
  -- `h[k] = a` and `delete(h, k)`
  unfoldable pub map_set : (K → Option ℕ) → K → ℕ → K → Option ℕ
  map_set h k a j = ite (dec k j) (some a) (h j)

  unfoldable pub map_delete : (K → Option ℕ) → K → K → Option ℕ
  map_delete h k j = ite (dec k j) none (h j)

module _ {K V : Type 0} (dec : Discrete K) where
  unfoldable pub eject : CacheHash K V → Option (CacheHash K V)
  unfolding back notify map_delete remove
  eject c = if c.len == 0 then some c else do
    e ← back c.l
    let c' = notify c e.key e.value
    some (record c' { h = map_delete dec c.h e.key; l = remove e.addr c.l; len = c.len - 1 })

  unfoldable pub insert_new : CacheHash K V → K → V → CacheHash K V
  unfolding map_set
  insert_new c k v = record c {
    h = map_set dec c.h k c.fresh;
    l = record { addr = c.fresh; key = k; value = v } ∷ c.l;
    len = c.len + 1;
    fresh = suc c.fresh;
  }

  -- the cache, and whether the key did exist and whether the call did eject
  unfoldable pub upsert : CacheHash K V → K → V → Option (CacheHash K V × Bool × Bool)
  unfolding set_value move_to_front eject insert_new
  upsert c k v = elim (c.h k) [
    | some a ↦ some (record c { l = move_to_front a (set_value a k v c.l) }, true, false)
    | none ↦
        if leb c.max_len c.len
        then (do c' ← eject c; some (insert_new c' k v, false, true))
        else some (insert_new c k v, false, false)
  ]

  unfoldable pub delete : CacheHash K V → K → Option (CacheHash K V × Option V)
  unfolding deref map_delete remove
  delete c k = elim (c.h k) [
    | none ↦ some (c, none)
    | some a ↦ do
      e ← deref a c.l
      some (record c { h = map_delete dec c.h k; l = remove a c.l; len = c.len - 1 }, some e.value)
  ]
