-- ===== src/Bundler/Tests.antt =====
-- The theorem of `Bundler` at two modules that import each other.
use bombadil.Common.{true, some, List, [], ◌∷◌, ◌≡◌, refl, sym, inl, inr, arith, map}
use mathlib.Core.Path.{subst}
use bombadil.Common.Text.{codes}
use bombadil.Common.Run.{Run, ok, Ends}
use bombadil.Bundler.Keys.{
  ModuleKey, same_key, contains, contains-cons_cases, contains-head, contains-tail,
}
use bombadil.Bundler.Modules.{
  ModuleContents, Setting, Rewritten, State, BundlerError, analyse, unprocessed, add_types,
  modules_of,
}
use bombadil.Bundler.Script.{contents_text}
use bombadil.Bundler.Closed.{imports_of}
use bombadil.Bundler.Processed.{HasImports}
use bombadil.Bundler.Complete.{IsComplete, modules_of-IsComplete}

abbrev spec : ModuleKey
spec = ModuleKey.on_disk "/spec.ts" ("/" ∷ "spec.ts" ∷ [])

abbrev library : ModuleKey
library = ModuleKey.embedded "@antithesishq/bombadil" ("index.ts" ∷ [])

-- Each script imports both.
abbrev setting : Setting
setting = record {
  canonicalizes = some tt;
  resolve = λ name. some spec;
  is_script = λ key. true;
  has_json_extension = λ key. true;
  read = λ key. some (codes "import");
  from_utf8 = some;
  reprint_json = some;
  quote = λ text. text;
  rewrite = λ key source. Rewritten.rewritten (library ∷ spec ∷ []) [] source;
}

abbrev both : List ModuleKey
both = spec ∷ library ∷ []

keys_of : Run State BundlerError (Unit {0}) → List ModuleKey
keys_of (ok _ s) = map (λ m. m.key) s.modules
keys_of _ = []

-- The latest module stands first.
collects : keys_of (modules_of setting 9 "./spec.ts") ≡ library ∷ spec ∷ []
unfolding keys_of modules_of contains same_key unprocessed add_types
collects = refl

imports_both : (i : ModuleKey) → contains (library ∷ spec ∷ []) i ≡ true → contains both i ≡ true
imports_both i h = elim (contains-cons_cases i library (spec ∷ []) h) [
  | inl same ↦
      subst (λ j. contains both j ≡ true) (sym same)
        (contains-tail library spec (library ∷ []) (contains-head library []))
  | inr rest ↦ elim (contains-cons_cases i spec [] rest) [
    | inl same ↦ subst (λ j. contains both j ≡ true) (sym same) (contains-head spec (library ∷ []))
    | inr none_left ↦ absurd (unfold contains in cc none_left)
  ]
]

both-HasImports : HasImports setting spec both
unfolding imports_of analyse
both-HasImports (ModuleKey.browser_stub name) i k h = absurd (unfold contains in cc h)
both-HasImports (ModuleKey.embedded name path) i k h = imports_both i h
both-HasImports (ModuleKey.on_disk name path) i k h = imports_both i h

modules_of-IsComplete_example :
    Ends (λ _ t. IsComplete setting spec t) (λ _. Unit {0}) (modules_of setting 9 "./spec.ts")
modules_of-IsComplete_example =
    modules_of-IsComplete setting spec both "./spec.ts" 9 refl (contains-head spec (library ∷ []))
      both-HasImports (unfold imports_of analyse contains in omega arith)

indents : contents_text (ModuleContents.code (codes "a;\r\nb;")) ≡ codes "    a;\n    b;\n"
unfolding contents_text
indents = refl
