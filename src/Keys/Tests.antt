-- ===== src/Keys/Tests.antt =====
-- The theorem of `Keys` at the key Enter.
use bombadil.Common.{ℕ, none, some, ◌≡◌, refl}
use bombadil.Keys.{lookup, key_name}
use bombadil.Keys.Inject.{key_name-injective}

no_name : key_name 7 ≡ none
unfolding key_name lookup
no_name = refl

enter : key_name 13 ≡ some "Enter"
unfolding key_name lookup
enter = refl

key_name-injective_example : ◌≡◌ {A = ℕ} 13 13
key_name-injective_example = key_name-injective 13 13 "Enter" enter enter
