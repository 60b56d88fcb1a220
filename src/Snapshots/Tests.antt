-- ===== src/Snapshots/Tests.antt =====
-- The theorems of `Snapshots` at two maps that share a key.
use bombadil.Common.{ℕ, ◌≡◌, refl, List, [], ◌∷◌}
use bombadil.Snapshots.{Key, get, merge}
use bombadil.Snapshots.Merge.{or_else, get-merge}

abbrev earlier : List (Key × ℕ)
earlier = ((0, 10), 1) ∷ ((2, 10), 2) ∷ []

abbrev later : List (Key × ℕ)
later = ((1, 10), 5) ∷ ((2, 10), 6) ∷ ((2, 20), 7) ∷ []

merges : merge earlier later ≡ ((0, 10), 1) ∷ ((1, 10), 5) ∷ ((2, 10), 6) ∷ ((2, 20), 7) ∷ []
unfolding merge
merges = refl

get-merge_example :
    get (2, 10) (merge earlier later) ≡ or_else (get (2, 10) later) (get (2, 10) earlier)
get-merge_example = get-merge (2, 10) earlier later ((refl, (refl, tt)), ((refl, tt), (tt, tt)))
