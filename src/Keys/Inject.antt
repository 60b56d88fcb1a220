-- ===== src/Keys/Inject.antt =====
-- That lib/bombadil-browser-keys/src/lib.rs tells the keys apart.
use text.Mathlib.Text.{◌==◌ as same}
use bombadil.Common.{
  split_and, ℕ, String, Bool, true, false, ◌&&◌, Option, none, some, List, [], ◌∷◌, ◌≡◌, refl, ap,
  ◌==◌, arith, if◌then◌else◌, Bool-cases, inl, inr,
}
use bombadil.Keys.{lookup, table, key_name}

-- The code of the first arm with a name.
code_of : String → List (ℕ × String) → Option ℕ
code_of name [] = none
code_of name ((k, other) ∷ arms) = if same name other then some k else code_of name arms

is_some_of : Option ℕ → ℕ → Bool
is_some_of none k = false
is_some_of (some j) k = j == k

-- Whether each of the arms is the first one of the whole with its name.
all_first : List (ℕ × String) → List (ℕ × String) → Bool
all_first whole [] = true
all_first whole ((k, name) ∷ arms) = is_some_of (code_of name whole) k && all_first whole arms

table_first : all_first table table ≡ true
unfolding all_first code_of is_some_of
table_first = refl

is_some_of-eq : (o : Option ℕ) (k : ℕ) → is_some_of o k ≡ true → o ≡ some k
unfolding is_some_of
is_some_of-eq none k h = cc
is_some_of-eq (some j) k h = ap some (ground (arith, h))

-- In a table without repeated names the name of a code leads back to the code.
code_of-lookup :
    (whole : List (ℕ × String)) (code : ℕ) (name : String) (arms : List (ℕ × String))
    → all_first whole arms ≡ true
    → lookup code arms ≡ some name
    → code_of name whole ≡ some code
unfolding lookup all_first
code_of-lookup whole code name [] f h = cc
code_of-lookup whole code name ((k, n) ∷ arms) f h =
    let (first, rest) = split_and (is_some_of (code_of n whole) k) (all_first whole arms) f in
    elim (Bool-cases (code == k)) [
      | inl e ↦
          let named : some n ≡ some name = rw e at h in
          let exact : code ≡ k = ground (arith, e) in
          cc (named, exact, is_some_of-eq (code_of n whole) k first)
      | inr e ↦ code_of-lookup whole code name arms rest (rw e at h)
    ]

-- Two codes that have the same key name are the same code.
pub key_name-injective :
    (a b : ℕ) (name : String) → key_name a ≡ some name → key_name b ≡ some name → a ≡ b
unfolding key_name
key_name-injective a b name p q = cc (
  code_of-lookup table a name table table_first p,
  code_of-lookup table b name table table_first q,
)
