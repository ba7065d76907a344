-- ===== src/Names/Authority.antt =====
-- `nextAuthority` of src/zdns/util.go, on labels.
use mathlib.Core.List.{append_assoc}
use zdns.Prelude.{
  suc, ◌+◌, ◌<◌, ◌≡◌, ◌≢◌, ◌⊎◌, inl, inr, refl, sym, ap, ◌∙◌, false, List, [], ◌∷◌, ◌++◌, arith,
  All, Text, text_eq, has_suffix, last_index, Bool-cases, drop, length, leb, some, length-append,
}
use zdns.Prelude.StringLaws.{
  Without, text_eq_iff, has_suffix-append, last_index-append, last_index_byte, last_index_absent,
  take-append,
}
use zdns.Names.{dot, in_addr_arpa, after, next_in_layer, next_authority}
use zdns.Names.Labels.{IsLabel, join, join-append}

drop_past : (p q : Text) → drop (length p + 1) (p ++ b'.' ∷ q) ≡ q
drop_past [] q = refl
drop_past (x ∷ p) q =
    let e : suc (length p) + 1 ≡ suc (length p + 1) = omega arith in rw e (drop_past p q)

-- the name from behind its last dot, if it has one before a label
after_last :
    (p q : Text) → Without b'.' q → after (last_index (p ++ b'.' ∷ q) dot) (p ++ b'.' ∷ q) ≡ q
unfolding after
after_last p q h = rw (last_index_byte b'.' p q h) (drop_past p q)

-- names

abbrev pub layer_of : List Text → Text
layer_of [] = dot
layer_of (l ∷ ls) = join (l ∷ ls)

join-ne-dot : (l : Text) (ls : List Text) → IsLabel l → join (l ∷ ls) ≢ dot
join-ne-dot [] ls h = absurd (omega arith)
join-ne-dot (c ∷ l) [] h = λ e. ground arith
join-ne-dot (c ∷ l) (m ∷ ls) h = λ e. ground arith

join-pos : (l : Text) (ls : List Text) → IsLabel l → 0 < length (join (l ∷ ls))
join-pos [] ls h = absurd (omega arith)
join-pos (c ∷ l) [] h = omega arith
join-pos (c ∷ l) (m ∷ ls) h = omega arith

-- two labels or more: the last one stands behind a dot
last-IsLabel :
    (l m : Text) (ls : List Text)
    → IsLabel l
    → IsLabel m
    → All IsLabel ls
    → (g : Text) × (z : Text) × (join (l ∷ m ∷ ls) ≡ g ++ b'.' ∷ z) × IsLabel z
last-IsLabel l m [] hl hm h = (l, m, refl, hm)
last-IsLabel l m (n ∷ ls) hl hm h =
    let (g, z, e, hz) = last-IsLabel m n ls hm h.0 h.1 in
    (l ++ b'.' ∷ g, z, rw e (sym (append_assoc l (b'.' ∷ g) (b'.' ∷ z))), hz)

-- the index of the last dot, and that something stands behind it
last_dot :
    (name g z : Text)
    → name ≡ g ++ b'.' ∷ z
    → IsLabel z
    → (last_index name dot ≡ some (length g))
      × (leb (length name) (length g + 1) ≡ false)
      × (drop (length g + 1) name ≡ z)
last_dot name g z e h =
    rw e (last_index_byte b'.' g z h.1, ground (arith, length-append g (b'.' ∷ z)), drop_past g z)

next_in_layer_lem :
    (f layer : Text)
    → 0 < length layer
    → next_in_layer (f ++ b'.' ∷ layer) (last_index (f ++ b'.' ∷ layer) layer)
      ≡ after (last_index f dot) (f ++ b'.' ∷ layer)
unfolding next_in_layer
next_in_layer_lem f layer h =
    let here : last_index (f ++ b'.' ∷ layer) layer ≡ some (suc (length f)) =
      rw (← append_assoc f dot layer)
        (last_index-append (f ++ dot) layer ∙ ap some (omega (arith, length-append f dot))) in
    ground (arith, here, length-append f (b'.' ∷ layer), take-append f (b'.' ∷ layer))

last_of_layer :
    (f m : Text) (ms : List Text)
    → IsLabel m
    → All IsLabel ms
    → (g : Text) × (z : Text) × (f ++ b'.' ∷ join (m ∷ ms) ≡ g ++ b'.' ∷ z) × IsLabel z
last_of_layer f m [] hm h = (f, m, refl, hm)
last_of_layer f m (n ∷ ms) hm h =
    let (g, z, e, hz) = last-IsLabel m n ms hm h.0 h.1 in
    (f ++ b'.' ∷ g, z, rw e (sym (append_assoc f (b'.' ∷ g) (b'.' ∷ z))), hz)

text_ne : (s t : Text) → s ≢ t → text_eq s t ≡ false
text_ne s t h = elim (Bool-cases (text_eq s t)) [
  | inl e ↦ absurd (h ((text_eq_iff s t).0 e))
  | inr e ↦ e
]

step_root :
    (p q : Text)
    → IsLabel q
    → has_suffix (p ++ b'.' ∷ q) in_addr_arpa ≡ false
    → next_authority (p ++ b'.' ∷ q) dot ≡ some q
unfolding next_authority
step_root p q h arpa =
    let ne : text_eq (p ++ b'.' ∷ q) dot ≡ false = text_ne (p ++ b'.' ∷ q) dot (long p q h) in
    ground (arith, last_dot (p ++ b'.' ∷ q) p q refl h, (text_eq_iff dot dot).1 refl, ne, arpa)
  where
    long : (p q : Text) → IsLabel q → (p ++ b'.' ∷ q) ≢ dot
    long p q h e = absurd (omega (arith, length-append p (b'.' ∷ q), ap length e))

step_single :
    (l : Text) → IsLabel l → has_suffix l in_addr_arpa ≡ false → next_authority l dot ≡ some l
unfolding next_authority
step_single l h arpa =
    ground (arith, last_index_absent b'.' l h.1, text_ne l dot (join-ne-dot l [] h), arpa)

step_layer :
    (f m : Text) (ms : List Text)
    → IsLabel m
    → All IsLabel ms
    → next_authority (f ++ b'.' ∷ join (m ∷ ms)) (join (m ∷ ms))
      ≡ some (after (last_index f dot) (f ++ b'.' ∷ join (m ∷ ms)))
unfolding next_authority
step_layer f m ms hm h =
    let layer = join (m ∷ ms) in
    let (g, z, e, hz) = last_of_layer f m ms hm h in
    ground (
      arith,
      last_dot (f ++ b'.' ∷ layer) g z e hz,
      text_ne layer dot (join-ne-dot m ms hm),
      rw (append_assoc f dot layer) at (has_suffix-append (f ++ dot) layer),
      next_in_layer_lem f layer (join-pos m ms hm),
    )

-- the front of the name ends with the label `l`
after_front :
    (pre : List Text) (l layer : Text)
    → IsLabel l
    → after (last_index (join (pre ++ l ∷ [])) dot) (join (pre ++ l ∷ []) ++ b'.' ∷ layer)
      ≡ l ++ b'.' ∷ layer
unfolding after
after_front [] l layer h = rw (last_index_absent b'.' l h.1)
after_front (p ∷ pre) l layer h =
    let e : join ((p ∷ pre) ++ l ∷ []) ≡ join (p ∷ pre) ++ b'.' ∷ l =
      join-append (p ∷ pre) (l ∷ []) (λ q. cc) (λ q. cc) in
    rw (e, last_index_byte b'.' (join (p ∷ pre)) l h.1, append_assoc)
      (drop_past (join (p ∷ pre)) (l ++ b'.' ∷ layer))

-- For a name of labels `pre`, `l`, `ls` and the layer of the labels `ls` (the root, if there are
-- none), the next authority is the name of `l` and `ls`: one label more. From the root, this is for
-- names that do not end in in-addr.arpa.
pub next_authority_lem :
    (pre : List Text) (l : Text) (ls : List Text)
    → IsLabel l
    → All IsLabel ls
    → (ls ≢ []) ⊎ (has_suffix (join (pre ++ l ∷ ls)) in_addr_arpa ≡ false)
    → next_authority (join (pre ++ l ∷ ls)) (layer_of ls) ≡ some (join (l ∷ ls))
next_authority_lem [] l [] hl h (inl ne) = absurd (ne refl)
next_authority_lem [] l [] hl h (inr arpa) = step_single l hl arpa
next_authority_lem (p ∷ pre) l [] hl h (inl ne) = absurd (ne refl)
next_authority_lem (p ∷ pre) l [] hl h (inr arpa) =
    let e : join ((p ∷ pre) ++ l ∷ []) ≡ join (p ∷ pre) ++ b'.' ∷ l =
      join-append (p ∷ pre) (l ∷ []) (λ q. cc) (λ q. cc) in
    rw e (step_root (join (p ∷ pre)) l hl (ap (λ t. has_suffix t in_addr_arpa) (sym e) ∙ arpa))
next_authority_lem pre l (m ∷ ms) hl h arpa =
    let e : join (pre ++ l ∷ m ∷ ms) ≡ join (pre ++ l ∷ []) ++ b'.' ∷ join (m ∷ ms) =
      ap join (sym (append_assoc pre (l ∷ []) (m ∷ ms)))
      ∙ join-append (pre ++ l ∷ []) (m ∷ ms) (append-ne-nil pre l) (λ q. cc) in
    rw e (
      step_layer (join (pre ++ l ∷ [])) m ms h.0 h.1
      ∙ ap some (after_front pre l (join (m ∷ ms)) hl))
  where
    append-ne-nil : (pre : List Text) (l : Text) → (pre ++ l ∷ []) ≢ []
    append-ne-nil [] l e = cc
    append-ne-nil (p ∷ pre) l e = cc
