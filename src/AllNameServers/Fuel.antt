-- ===== src/AllNameServers/Fuel.antt =====
-- The fuel of the loop of `LookupAllNameserversIterative` of src/zdns/lookup.go.
use zdns.Prelude.{
  ℕ, suc, ◌+◌, ◌-◌, ◌≤◌, ◌≡◌, ◌⊎◌, inl, inr, sym, ap, ◌∙◌, true, false, some, arith, Bool-cases,
  Text, text_eq, has_suffix, length,
}
use zdns.Prelude.StringLaws.{text_eq_iff}
use zdns.Names.{dot, next_authority}
use zdns.Names.Descent.{
  length-suffix, next_authority-Grows, next_authority_root, next_authority_self,
}

-- a layer of the name
abbrev pub IsLayerOf : Text → Text → Type 0
IsLayerOf name layer = (layer ≡ dot) ⊎ (layer ≡ name) ⊎ (has_suffix name layer ≡ true)

-- The fuel is enough for the layers that are left.
abbrev pub Ready : ℕ → Text → Text → Type 0
Ready fuel name layer =
    ((layer ≡ name) × (1 ≤ fuel))
    ⊎ ((layer ≡ dot) × (length name + 3 ≤ fuel))
    ⊎ ((has_suffix name layer ≡ true)
        × (text_eq layer dot ≡ false)
        × (1 ≤ length layer)
        × ((length name - length layer) + 2 ≤ fuel))

pub Ready-IsLayerOf : (fuel : ℕ) (name layer : Text) → Ready fuel name layer → IsLayerOf name layer
Ready-IsLayerOf fuel name layer (inl (e, _)) = inr (inl e)
Ready-IsLayerOf fuel name layer (inr (inl (e, _))) = inl e
Ready-IsLayerOf fuel name layer (inr (inr (e, _, _, _))) = inr (inr e)

pub Ready-pos : (fuel : ℕ) (name layer : Text) → Ready fuel name layer → 1 ≤ fuel
Ready-pos fuel name layer (inl (_, h)) = h
Ready-pos fuel name layer (inr (inl (_, h))) = omega (arith, h)
Ready-pos fuel name layer (inr (inr (_, _, _, h))) = omega (arith, h)

-- a text of two bytes is not the root
ne_dot : (s : Text) → 2 ≤ length s → text_eq s dot ≡ false
ne_dot s h = elim (Bool-cases (text_eq s dot)) [
  | inl e ↦
      absurd (let len : length s ≡ 1 = ap length ((text_eq_iff s dot).0 e) in omega (arith, h, len))
  | inr e ↦ e
]

-- the layer of the next round, or the end of the loop
pub next-Ready :
    (fuel : ℕ) (name layer : Text)
    → Ready (suc fuel) name layer
    → (new : Text) × (next_authority name layer ≡ some new)
      × ((text_eq new layer ≡ true) ⊎ Ready fuel name new)
next-Ready fuel name layer (inl (e, h)) = (
  name,
  ap (next_authority name) e ∙ next_authority_self name,
  inl ((text_eq_iff name layer).1 (sym e)),
)
next-Ready fuel name layer (inr (inl (e, h))) =
    let (new, f, grows) = next_authority_root name in
    (
      new,
      ap (next_authority name) e ∙ f,
      elim (Bool-cases (text_eq new layer)) [
        | inl d ↦ inl d
        | inr d ↦ inr (elim grows [
          | inl same ↦ inl (same, omega (arith, h))
          | inr (suffix, longer) ↦ inr (
              inr (
                suffix,
                ap (text_eq new) (sym e) ∙ d,
                omega (arith, longer),
                omega (arith, h, longer),
              ))
        ])
      ],
    )
next-Ready fuel name layer (inr (inr (suffix, ne, pos, h))) =
    let (new, f, grows) = next_authority-Grows name layer suffix ne in
    (
      new,
      f,
      inr (elim grows [
        | inl same ↦ inl (same, omega (arith, h))
        | inr (suffix', longer) ↦ inr (
            inr (
              suffix',
              ne_dot new (omega (arith, longer, pos)),
              omega (arith, longer),
              omega (arith, h, longer, length-suffix name new suffix'),
            ))
      ]),
    )
