-- ===== src/Platform/Projection/Monotone.antt =====
-- What the steps of the specification of the inventory projection do to one item.
use seshatops.Base.{
  ℕ, suc, ◌+◌, ◌≤◌, ◌≡◌, refl, sym, ◌∙◌, inl, inr, true, Bool-cases, Option, some, Bytes,
  str_eq_iff, arith,
}
use seshatops.Base.Int64.{ℤ, pos}
use seshatops.Platform.World.{Db}
use seshatops.Platform.Projection.Advance.{
  view, same_item, Step, start, next, Advances, still, after,
}

-- A later state of an item: the version does not fall, each version takes off at least one, and at
-- the same version the quantity is the same.
abbrev pub IsLater : ℕ → ℕ → ℕ → ℕ → Type 0
IsLater q v q' v' = (v ≤ v') × (q' + v' ≤ q + v) × (v' ≡ v → q' ≡ q)

module _ (t i : Bytes) where
  same-view : (t₁ i₁ : Bytes) (d : Db) → same_item t₁ i₁ t i ≡ true → view t₁ i₁ d ≡ view t i d
  same-view t₁ i₁ d h = cc ((str_eq_iff t₁ t).0 (ground arith), (str_eq_iff i₁ i).0 (ground arith))

  -- The quantity and the version of the item before a step on it.
  same_state :
      (a b c e : ℕ) (x y : Option (ℤ × ℤ))
      → x ≡ some (pos a, pos b)
      → x ≡ y
      → y ≡ some (pos c, pos e)
      → (a ≡ c) × (b ≡ e)
  same_state a b c e x y hx e₁ hy = (cc, cc)

  Step-view :
      (q v : ℕ) {d d' : Db}
      → Step d d'
      → view t i d ≡ some (pos q, pos v)
      → (q' v' : ℕ) × (view t i d' ≡ some (pos q', pos v')) × IsLater q v q' v'
  Step-view q v {d} (start t₁ i₁ q₁ absent seen) h = elim (Bool-cases (same_item t₁ i₁ t i)) [
    | inl same ↦ cc (same-view t₁ i₁ d same)
    | inr other ↦ (q, v, seen t i ∙ rw other h, (omega arith, omega arith, λ _. refl))
  ]
  Step-view q v {d} (next t₁ i₁ q₁ taken v₁ before one seen) h =
      elim (Bool-cases (same_item t₁ i₁ t i)) [
        | inl same ↦
            let (eq, ev) =
              same_state q v (q₁ + taken) v₁ _ _ h (sym (same-view t₁ i₁ d same)) before in
            (
              q₁,
              suc v₁,
              seen t i ∙ rw same refl,
              (omega arith, omega arith, λ k. absurd (omega arith)),
            )
        | inr other ↦ (q, v, seen t i ∙ rw other h, (omega arith, omega arith, λ _. refl))
      ]

  pub Advances-view :
      (q v : ℕ) {d d' : Db}
      → Advances d d'
      → view t i d ≡ some (pos q, pos v)
      → (q' v' : ℕ) × (view t i d' ≡ some (pos q', pos v')) × IsLater q v q' v'
  Advances-view q v (still e) h = (q, v, e t i ∙ h, (omega arith, omega arith, λ _. refl))
  Advances-view q v (after r st) h =
      let (q₁, v₁, e₁, (up₁, down₁, same₁)) = Advances-view q v r h in
      let (q₂, v₂, e₂, (up₂, down₂, same₂)) = Step-view q₁ v₁ st e₁ in
      (q₂, v₂, e₂, (omega arith, omega arith, λ k. same₂ (omega arith) ∙ same₁ (omega arith)))
