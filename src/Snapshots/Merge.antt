-- ===== src/Snapshots/Merge.antt =====
-- What a merge of snapshots of lib/bombadil/src/specification/domain.rs holds.
use bombadil.Common.{
  Bool, true, false, Option, none, some, List, [], ◌∷◌, ◌≡◌, refl, ◌∙◌, inl, inr, Bool-cases,
  if◌then◌else◌, arith, All,
}
use bombadil.Snapshots.{Key, same_key, before_key, insert, get, merge}

before_trans : (a b c : Key) → before_key a b ≡ true → before_key b c ≡ true → before_key a c ≡ true
before_trans (a0, a1) (b0, b1) (c0, c1) h k = ground (arith, h, k)

trichotomy : (a b : Key) → same_key a b ≡ false → before_key a b ≡ false → before_key b a ≡ true
trichotomy (a0, a1) (b0, b1) h k = ground (arith, h, k)

same_before : (a b c : Key) → same_key a b ≡ true → before_key b c ≡ true → before_key a c ≡ true
same_before (a0, a1) (b0, b1) (c0, c1) h k = ground (arith, h, k)

before_not_same : (a b c : Key) → same_key a b ≡ true → before_key b c ≡ true → same_key a c ≡ false
before_not_same (a0, a1) (b0, b1) (c0, c1) h k = ground (arith, h, k)

same_same : (a b c : Key) → same_key a b ≡ true → same_key a c ≡ same_key b c
same_same (a0, a1) (b0, b1) (c0, c1) h = ground (arith, h)

same_right : (j a b : Key) → same_key a b ≡ true → same_key j a ≡ same_key j b
same_right (j0, j1) (a0, a1) (b0, b1) h = ground (arith, h)

same_both : (j a b : Key) → same_key j a ≡ true → same_key j b ≡ true → same_key a b ≡ true
same_both (j0, j1) (a0, a1) (b0, b1) h k = ground (arith, h, k)

before_irreflexive : (a b : Key) → before_key a b ≡ true → same_key a b ≡ false
before_irreflexive (a0, a1) (b0, b1) h = ground (arith, h)

module _ {Snapshot : Type 0} where
  -- The entries stand in the order of their keys, each key once.
  abbrev pub IsOrdered : List (Key × Snapshot) → Type 0
  IsOrdered [] = Unit
  IsOrdered ((k, s) ∷ entries) = All (λ e. before_key k e.0 ≡ true) entries × IsOrdered entries

  -- The snapshot of the later side, or else that of the earlier one.
  abbrev pub or_else : Option Snapshot → Option Snapshot → Option Snapshot
  or_else (some s) other = some s
  or_else none other = other

  get-insert :
      (j k : Key) (s : Snapshot) (entries : List (Key × Snapshot))
      → get j (insert k s entries) ≡ (if same_key j k then some s else get j entries)
  unfolding get insert
  get-insert j k s [] = refl
  get-insert j k s ((k', s') ∷ entries) =
      let ih = get-insert j k s entries in
      elim (Bool-cases (same_key k k')) [
        | inl e ↦ rw e (rw⁻¹ (same_right j k k' e) (twice (same_key j k) (get j entries)))
        | inr e ↦ rw e (elim (Bool-cases (before_key k k')) [
          | inl b ↦ rw b refl
          | inr b ↦
              rw (b, ih)
                (swapped (same_key j k) (same_key j k') (λ h h'. clash (same_both j k k' h h') e))
        ])
      ]
    where
      clash : {b : Bool} → b ≡ true → b ≡ false → ⊥
      clash e h = cc

      twice :
          (b : Bool) (o : Option Snapshot)
          → (if b then some s else o) ≡ (if b then some s else if b then some s' else o)
      twice true o = refl
      twice false o = refl

      swapped :
          (b c : Bool)
          → (b ≡ true → c ≡ true → ⊥)
          → (if c then some s' else if b then some s else get j entries)
            ≡ (if b then some s else if c then some s' else get j entries)
      swapped true true h = absurd (h refl refl)
      swapped true false h = refl
      swapped false c h = refl

  get-later :
      (k : Key) (entries : List (Key × Snapshot))
      → All (λ e. before_key k e.0 ≡ true) entries
      → get k entries ≡ none
  unfolding get
  get-later k [] h = refl
  get-later k ((k', s') ∷ entries) h =
      rw (before_irreflexive k k' (h.0)) (get-later k entries (h.1))

  get-same :
      (j k : Key) (entries : List (Key × Snapshot))
      → same_key j k ≡ true
      → get j entries ≡ get k entries
  unfolding get
  get-same j k [] e = refl
  get-same j k ((k', s') ∷ entries) e = rw (same_same j k k' e, get-same j k entries e) refl

  -- Merging holds, at each key, the snapshot of the other side, whose entries are in order, or else
  -- the one that was held before.
  pub get-merge :
      (j : Key) (merged other : List (Key × Snapshot))
      → IsOrdered other
      → get j (merge merged other) ≡ or_else (get j other) (get j merged)
  unfolding merge get
  get-merge j merged [] h = refl
  get-merge j merged ((k, s) ∷ other) h =
      get-merge j (insert k s merged) other (h.1)
      ∙ rw (get-insert j k s merged) (elim (Bool-cases (same_key j k)) [
        | inl e ↦ rw (e, get-same j k other e ∙ get-later k other (h.0)) refl
        | inr e ↦ rw e refl
      ])

  insert-All :
      (j k : Key) (s : Snapshot) (entries : List (Key × Snapshot))
      → before_key j k ≡ true
      → All (λ e. before_key j e.0 ≡ true) entries
      → All (λ e. before_key j e.0 ≡ true) (insert k s entries)
  unfolding insert
  insert-All j k s [] b h = (b, tt)
  insert-All j k s ((k', s') ∷ entries) b h = elim (Bool-cases (same_key k k')) [
    | inl e ↦ rw e (b, h.1)
    | inr e ↦ rw e (elim (Bool-cases (before_key k k')) [
      | inl c ↦ rw c (b, (h.0, h.1))
      | inr c ↦ rw c (h.0, insert-All j k s entries b (h.1))
    ])
  ]

  every_later :
      (j k : Key) (entries : List (Key × Snapshot))
      → ((c : Key) → before_key k c ≡ true → before_key j c ≡ true)
      → All (λ e. before_key k e.0 ≡ true) entries
      → All (λ e. before_key j e.0 ≡ true) entries
  every_later j k [] f h = tt
  every_later j k ((k', s') ∷ entries) f h = (f k' (h.0), every_later j k entries f (h.1))

  insert-IsOrdered :
      (k : Key) (s : Snapshot) (entries : List (Key × Snapshot))
      → IsOrdered entries
      → IsOrdered (insert k s entries)
  unfolding insert
  insert-IsOrdered k s [] h = (tt, tt)
  insert-IsOrdered k s ((k', s') ∷ entries) h = elim (Bool-cases (same_key k k')) [
    | inl e ↦ rw e (every_later k k' entries (λ c. same_before k k' c e) (h.0), h.1)
    | inr e ↦ rw e (elim (Bool-cases (before_key k k')) [
      | inl b ↦ rw b ((b, every_later k k' entries (λ c. before_trans k k' c b) (h.0)), (h.0, h.1))
      | inr b ↦ rw b (
        insert-All k' k s entries (trichotomy k k' e b) (h.0),
        insert-IsOrdered k s entries (h.1),
      )
    ])
  ]

  -- A merge keeps the entries in the order of their keys, each key once.
  pub merge-IsOrdered :
      (merged other : List (Key × Snapshot)) → IsOrdered merged → IsOrdered (merge merged other)
  unfolding merge
  merge-IsOrdered merged [] h = h
  merge-IsOrdered merged ((k, s) ∷ other) h =
      merge-IsOrdered (insert k s merged) other (insert-IsOrdered k s merged h)
