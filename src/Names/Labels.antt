-- ===== src/Names/Labels.antt =====
-- Names as lists of labels, an independent reading of a domain name.
use zdns.Prelude.{
  ℕ, ◌<◌, ◌≡◌, ◌≢◌, refl, List, [], ◌∷◌, ◌++◌, arith, length, Text, ◌==◌, if◌then◌else◌,
}
use mathlib.Core.List.{append_assoc}
use zdns.Prelude.StringLaws.{Without}

-- the text before the first dot, and the labels behind it
abbrev pub cons_byte : ℕ → List Text → List Text
cons_byte c [] = (c ∷ []) ∷ []
cons_byte c (l ∷ ls) = (c ∷ l) ∷ ls

-- The labels of a name: its parts between dots.
abbrev pub labels : Text → List Text
labels [] = [] ∷ []
labels (c ∷ s) = if c == b'.' then [] ∷ labels s else cons_byte c (labels s)

-- The name of a list of labels.
abbrev pub join : List Text → Text
join [] = []
join (l ∷ []) = l
join (l ∷ m ∷ ls) = l ++ b'.' ∷ join (m ∷ ls)

abbrev pub IsLabel : Text → Type 0
IsLabel l = (0 < length l) × Without b'.' l

pub labels-ne-nil : (s : Text) → labels s ≢ []
labels-ne-nil [] = λ e. cc
labels-ne-nil (c ∷ s) = λ e. grind (arith, labels-ne-nil s)

cons_byte-append :
    (c : ℕ) (ls ms : List Text) → ls ≢ [] → cons_byte c (ls ++ ms) ≡ cons_byte c ls ++ ms
cons_byte-append c [] ms h = absurd (h refl)
cons_byte-append c (l ∷ ls) ms h = refl

-- a dot between two names puts their labels one behind the other
pub labels-append : (p q : Text) → labels (p ++ b'.' ∷ q) ≡ labels p ++ labels q
labels-append [] q = refl
labels-append (c ∷ p) q =
    ground (arith, labels-append p q, cons_byte-append c (labels p) (labels q) (labels-ne-nil p))

join-nil_cons : (ls : List Text) → ls ≢ [] → join ([] ∷ ls) ≡ b'.' ∷ join ls
join-nil_cons [] h = absurd (h refl)
join-nil_cons (l ∷ ls) h = refl

join-cons_byte : (c : ℕ) (ls : List Text) → ls ≢ [] → join (cons_byte c ls) ≡ c ∷ join ls
join-cons_byte c [] h = absurd (h refl)
join-cons_byte c (l ∷ []) h = refl
join-cons_byte c (l ∷ m ∷ ls) h = refl

-- joining the labels of a name gives the name
pub join-labels : (s : Text) → join (labels s) ≡ s
join-labels [] = refl
join-labels (c ∷ s) = ground (
  arith,
  join-labels s,
  join-nil_cons (labels s) (labels-ne-nil s),
  join-cons_byte c (labels s) (labels-ne-nil s),
)

pub join-append :
    (ls ms : List Text) → ls ≢ [] → ms ≢ [] → join (ls ++ ms) ≡ join ls ++ b'.' ∷ join ms
join-append [] ms h k = absurd (h refl)
join-append (l ∷ []) [] h k = absurd (k refl)
join-append (l ∷ []) (m ∷ ms) h k = refl
join-append (l ∷ l' ∷ ls) ms h k =
    rw (join-append (l' ∷ ls) ms (λ e. cc) k, append_assoc l (b'.' ∷ join (l' ∷ ls)))
