-- ===== src/Prelude/StringLaws.antt =====
-- Laws of the functions on texts.
use Prim.Native.Nat.{ℕ, ◌-◌, ◌<◌}
use mathlib.Core.Path.{◌≡◌, refl, sym, ap, ◌∙◌}
use mathlib.Core.Logic.{◌≢◌, ◌↔◌}
use mathlib.Core.Bool.{true, false}
use mathlib.Core.List.{List, [], ◌∷◌, ◌++◌}
use mathlib.Core.Option.{none, some}
use native.Mathlib.Omega.{arith}
use zdns.Prelude.Lists.{length, take, drop, length-append, take-append-drop, All}
use zdns.Prelude.Strings.{Text, text_eq, has_suffix, trim_suffix, has_prefix, last_index}

pub text_eq_iff : (s t : Text) → (text_eq s t ≡ true) ↔ (s ≡ t)
unfolding text_eq
text_eq_iff [] [] = (λ _. refl, λ _. refl)
text_eq_iff [] (d ∷ t) = (λ e. cc, λ e. cc)
text_eq_iff (c ∷ s) [] = (λ e. cc, λ e. cc)
text_eq_iff (c ∷ s) (d ∷ t) =
    (λ e. ground (arith, (text_eq_iff s t).0), λ e. ground (arith, (text_eq_iff s t).1))

module _ {A : Type 0} where
  pub drop-append : (p q : List A) → drop (length p) (p ++ q) ≡ q
  drop-append [] q = refl
  drop-append (x ∷ p) q = drop-append p q

  pub take-append : (p q : List A) → take (length p) (p ++ q) ≡ p
  take-append [] q = refl
  take-append (x ∷ p) q = ap (◌∷◌ x) (take-append p q)

pub has_suffix-append : (p t : Text) → has_suffix (p ++ t) t ≡ true
unfolding has_suffix
has_suffix-append p t =
    let n : length (p ++ t) - length t ≡ length p = omega (arith, length-append p t) in
    let here : drop (length (p ++ t) - length t) (p ++ t) ≡ t = rw n (drop-append p t) in
    ground (arith, here, (text_eq_iff t t).1 refl, length-append p t)

-- A suffix is what the name says.
pub append_of-has_suffix :
    (s t : Text) → has_suffix s t ≡ true → s ≡ take (length s - length t) s ++ t
unfolding has_suffix
append_of-has_suffix s t h =
    let e : drop (length s - length t) s ≡ t =
      (text_eq_iff (drop (length s - length t) s) t).0 (ground arith) in
    sym (take-append-drop (length s - length t) s) ∙ ap (◌++◌ (take (length s - length t) s)) e

pub trim_suffix-append : (p t : Text) → trim_suffix (p ++ t) t ≡ p
unfolding trim_suffix
trim_suffix-append p t =
    let n : length (p ++ t) - length t ≡ length p = omega (arith, length-append p t) in
    let first : take (length (p ++ t) - length t) (p ++ t) ≡ p = rw n (take-append p t) in
    ground (arith, has_suffix-append p t, first)

pub trim_suffix_other : (s t : Text) → has_suffix s t ≡ false → trim_suffix s t ≡ s
unfolding trim_suffix
trim_suffix_other s t h = ground (arith, h)

has_prefix_self : (t : Text) → has_prefix t t ≡ true
unfolding has_prefix
has_prefix_self [] = refl
has_prefix_self (c ∷ t) = ground (arith, has_prefix_self t)

has_prefix_short : (s t : Text) → length s < length t → has_prefix s t ≡ false
unfolding has_prefix
has_prefix_short [] (d ∷ t) h = refl
has_prefix_short (c ∷ s) (d ∷ t) h = ground (arith, has_prefix_short s t)
has_prefix_short s [] h = absurd (omega arith)

last_index_short : (s t : Text) → length s < length t → last_index s t ≡ none
unfolding last_index
last_index_short [] t h = ground (arith, has_prefix_short [] t h)
last_index_short (c ∷ s) t h =
    ground (arith, last_index_short s t (omega arith), has_prefix_short (c ∷ s) t h)

-- A suffix occurs last where it stands at the end.
pub last_index-append : (p t : Text) → last_index (p ++ t) t ≡ some (length p)
unfolding last_index
last_index-append [] [] = refl
last_index-append [] (c ∷ t) =
    ground (arith, last_index_short t (c ∷ t) (omega arith), has_prefix_self (c ∷ t))
last_index-append (c ∷ p) t = ground (arith, last_index-append p t)

abbrev pub Without : ℕ → Text → Type 0
Without d s = All (λ c. c ≢ d) s

pub last_index_absent : (d : ℕ) (s : Text) → Without d s → last_index s (d ∷ []) ≡ none
unfolding last_index has_prefix
last_index_absent d [] h = refl
last_index_absent d (c ∷ s) h = ground (arith, last_index_absent d s h.1)

-- The last of a byte that does not occur behind it.
pub last_index_byte :
    (d : ℕ) (p q : Text) → Without d q → last_index (p ++ d ∷ q) (d ∷ []) ≡ some (length p)
unfolding last_index has_prefix
last_index_byte d [] q h = ground (arith, last_index_absent d q h)
last_index_byte d (c ∷ p) q h = ground (arith, last_index_byte d p q h)
