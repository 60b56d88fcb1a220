-- ===== src/Bundler/Keys.antt =====
-- The keys of modules of lib/bombadil/src/specification/resolver.rs, and sets of them.
use text.Mathlib.Text.{◌==◌ as same}
use text.Mathlib.TextEquality.{eq_iff}
use text.Mathlib.TextPositions.{eq_refl}
use bombadil.Common.{
  String, Bool, true, false, ◌&&◌, ◌||◌, List, [], ◌∷◌, ◌++◌, ◌≡◌, refl, ◌⊎◌, inl, inr, Bool-cases,
  split_and,
}

-- A path is the list of its components, which is what `==` of `PathBuf` compares.
unfoldable pub same_path : List String → List String → Bool
same_path [] [] = true
same_path (c ∷ p) (d ∷ q) = same c d && same_path p q
same_path _ _ = false

-- The specifier, and the path where there is one.
pub data ModuleKey : Type 0 where
  embedded on_disk : String → List String → ModuleKey
  browser_stub : String → ModuleKey

unfoldable pub specifier : ModuleKey → String
specifier (ModuleKey.embedded name path) = name
specifier (ModuleKey.on_disk name path) = name
specifier (ModuleKey.browser_stub name) = name

unfoldable pub same_key : ModuleKey → ModuleKey → Bool
unfolding same_path
same_key (ModuleKey.embedded s p) (ModuleKey.embedded t q) = same s t && same_path p q
same_key (ModuleKey.on_disk s p) (ModuleKey.on_disk t q) = same s t && same_path p q
same_key (ModuleKey.browser_stub s) (ModuleKey.browser_stub t) = same s t
same_key _ _ = false

unfoldable pub contains : List ModuleKey → ModuleKey → Bool
contains [] key = false
contains (k ∷ keys) key = same_key key k || contains keys key

same_path-eq : (p q : List String) → same_path p q ≡ true → p ≡ q
unfolding same_path
same_path-eq [] [] h = refl
same_path-eq [] (d ∷ q) h = cc
same_path-eq (c ∷ p) [] h = cc
same_path-eq (c ∷ p) (d ∷ q) h =
    let (a, b) = split_and (same c d) (same_path p q) h in cc ((eq_iff c d).0 a, same_path-eq p q b)

same_path_refl : (p : List String) → same_path p p ≡ true
unfolding same_path
same_path_refl [] = refl
same_path_refl (c ∷ p) = rw (eq_refl c, same_path_refl p) refl

pub same_key-eq : (j k : ModuleKey) → same_key j k ≡ true → j ≡ k
unfolding same_key
same_key-eq (ModuleKey.embedded s p) (ModuleKey.embedded t q) h =
    let (a, b) = split_and (same s t) (same_path p q) h in cc ((eq_iff s t).0 a, same_path-eq p q b)
same_key-eq (ModuleKey.on_disk s p) (ModuleKey.on_disk t q) h =
    let (a, b) = split_and (same s t) (same_path p q) h in cc ((eq_iff s t).0 a, same_path-eq p q b)
same_key-eq (ModuleKey.browser_stub s) (ModuleKey.browser_stub t) h = cc ((eq_iff s t).0 h)
same_key-eq (ModuleKey.embedded _ _) (ModuleKey.on_disk _ _) h = cc
same_key-eq (ModuleKey.embedded _ _) (ModuleKey.browser_stub _) h = cc
same_key-eq (ModuleKey.on_disk _ _) (ModuleKey.embedded _ _) h = cc
same_key-eq (ModuleKey.on_disk _ _) (ModuleKey.browser_stub _) h = cc
same_key-eq (ModuleKey.browser_stub _) (ModuleKey.embedded _ _) h = cc
same_key-eq (ModuleKey.browser_stub _) (ModuleKey.on_disk _ _) h = cc

pub same_key_refl : (k : ModuleKey) → same_key k k ≡ true
unfolding same_key
same_key_refl (ModuleKey.embedded s p) = rw (eq_refl s, same_path_refl p) refl
same_key_refl (ModuleKey.on_disk s p) = rw (eq_refl s, same_path_refl p) refl
same_key_refl (ModuleKey.browser_stub s) = eq_refl s

split_or : (b c : Bool) → (b || c) ≡ true → (b ≡ true) ⊎ (c ≡ true)
split_or true c h = inl refl
split_or false c h = inr h

-- What a set with one key more contains.
pub contains-cons_cases :
    (key k : ModuleKey) (keys : List ModuleKey)
    → contains (k ∷ keys) key ≡ true
    → (key ≡ k) ⊎ (contains keys key ≡ true)
unfolding contains
contains-cons_cases key k keys h = elim (split_or (same_key key k) (contains keys key) h) [
  | inl e ↦ inl (same_key-eq key k e)
  | inr e ↦ inr e
]

pub contains-head : (k : ModuleKey) (keys : List ModuleKey) → contains (k ∷ keys) k ≡ true
unfolding contains
contains-head k keys = rw (same_key_refl k) refl

or_right : (b c : Bool) → c ≡ true → (b || c) ≡ true
or_right true c h = refl
or_right false c h = h

pub contains-tail :
    (key k : ModuleKey) (keys : List ModuleKey)
    → contains keys key ≡ true
    → contains (k ∷ keys) key ≡ true
unfolding contains
contains-tail key k keys h = or_right (same_key key k) _ h

pub contains-append_left :
    (key : ModuleKey) (ks js : List ModuleKey)
    → contains ks key ≡ true
    → contains (ks ++ js) key ≡ true
unfolding contains
contains-append_left key [] js h = cc
contains-append_left key (k ∷ ks) js h = elim (Bool-cases (same_key key k)) [
  | inl e ↦ rw e refl
  | inr e ↦ rw e (contains-append_left key ks js (rw e at h))
]

pub contains-append_right :
    (key : ModuleKey) (ks js : List ModuleKey)
    → contains js key ≡ true
    → contains (ks ++ js) key ≡ true
unfolding contains
contains-append_right key [] js h = h
contains-append_right key (k ∷ ks) js h =
    or_right (same_key key k) _ (contains-append_right key ks js h)

pub contains-append_cases :
    (key : ModuleKey) (ks js : List ModuleKey)
    → contains (ks ++ js) key ≡ true
    → (contains ks key ≡ true) ⊎ (contains js key ≡ true)
unfolding contains
contains-append_cases key [] js h = inr h
contains-append_cases key (k ∷ ks) js h = elim (Bool-cases (same_key key k)) [
  | inl e ↦ inl (rw e refl)
  | inr e ↦ rw e (contains-append_cases key ks js (rw e at h))
]
