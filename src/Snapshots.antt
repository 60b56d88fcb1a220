-- ===== src/Snapshots.antt =====
-- lib/bombadil/src/specification/domain.rs: the snapshots that a formula has read, each once. The
-- `BTreeMap` of the source is its list of entries, in the order of the keys.
pub mod Merge
mod Tests
use bombadil.Common.{
  ℕ, Bool, true, false, ◌&&◌, ◌||◌, Option, none, some, List, [], ◌∷◌, ltb, ◌==◌, if◌then◌else◌,
}

-- The index of an extractor and a time.
abbrev pub Key : Type 0
Key = ℕ × ℕ

abbrev pub same_key : Key → Key → Bool
same_key j k = (j.0 == k.0) && (j.1 == k.1)

-- The order of pairs.
abbrev pub before_key : Key → Key → Bool
before_key j k = ltb j.0 k.0 || ((j.0 == k.0) && ltb j.1 k.1)

module _ {Snapshot : Type 0} where
  unfoldable pub insert : Key → Snapshot → List (Key × Snapshot) → List (Key × Snapshot)
  insert key snapshot [] = (key, snapshot) ∷ []
  insert key snapshot ((k, s) ∷ entries) =
      let rest = insert key snapshot entries in
      if same_key key k
      then (key, snapshot) ∷ entries
      else if before_key key k
      then (key, snapshot) ∷ (k, s) ∷ entries
      else (k, s) ∷ rest

  unfoldable pub get : Key → List (Key × Snapshot) → Option Snapshot
  get key [] = none
  get key ((k, s) ∷ entries) = let rest = get key entries in if same_key key k then some s else rest

  -- `merged.extend(…)`.
  unfoldable pub merge : List (Key × Snapshot) → List (Key × Snapshot) → List (Key × Snapshot)
  unfolding insert
  merge merged [] = merged
  merge merged ((k, s) ∷ other) = merge (insert k s merged) other

  -- `FromIterator::from_iter`.
  unfoldable pub from_iter : List (Key × Snapshot) → List (Key × Snapshot)
  unfolding merge
  from_iter entries = merge [] entries

  unfoldable pub is_empty : List (Key × Snapshot) → Bool
  is_empty [] = true
  is_empty (_ ∷ _) = false
