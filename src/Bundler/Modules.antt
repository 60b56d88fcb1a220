-- ===== src/Bundler/Modules.antt =====
-- The loop of `bundle`, which collects the modules.
use bombadil.Common.{
  ℕ, zero, suc, String, Bool, true, false, Option, none, some, List, [], ◌∷◌, ◌++◌, if◌then◌else◌,
}
use bombadil.Common.Text.{Text, codes}
use bombadil.Common.Result.{Result}
use bombadil.Common.Run.{Run, Comp, out_of_fuel, ok, err, return, fail, expect, ◌>>=◌, ◌>>◌}
use bombadil.Bundler.Keys.{ModuleKey, specifier, same_key, contains}

pub data ImportType : Type 0 where
  json text binary : ImportType

abbrev pub same_type : ImportType → ImportType → Bool
same_type ImportType.json ImportType.json = true
same_type ImportType.text ImportType.text = true
same_type ImportType.binary ImportType.binary = true
same_type _ _ = false

pub data BundlerError : Type 0 where
  parse_errors semantic_errors unresolved_imports : BundlerError
  conflicting_import_types : String → ImportType → ImportType → BundlerError
  not_canonical not_resolved not_read invalid_utf8 invalid_json : BundlerError

pub data ModuleContents : Type 0 where
  code : Text → ModuleContents
  file : List ℕ → ModuleContents

pub record Module : Type 0 where
  pub key : ModuleKey
  pub contents : ModuleContents

-- What the parser, the transformer, the semantic checks, the rewriter and the printer make of a
-- script: the imported keys and their types, in the order of the sets, and the code.
pub data Rewritten : Type 0 where
  panicked has_errors unresolved : Rewritten
  rewritten : List ModuleKey → List (ModuleKey × ImportType) → Text → Rewritten

pub record Setting : Type 0 where
  pub canonicalizes : Option (Unit {0})
  pub resolve : String → Option ModuleKey
  pub is_script : ModuleKey → Bool
  pub has_json_extension : ModuleKey → Bool
  pub read : ModuleKey → Option (List ℕ)
  pub from_utf8 : List ℕ → Option Text
  pub reprint_json : List ℕ → Option Text
  pub quote : Text → Text
  pub rewrite : ModuleKey → Text → Rewritten

-- The modules, the latest first, with the sets and the queue.
pub record State : Type 0 where
  pub modules : List Module
  pub keys_processed : List ModuleKey
  pub import_types : List (ModuleKey × ImportType)
  pub queue : List ModuleKey

abbrev pub Bundle : Type 0 → Type 0
Bundle A = Comp State BundlerError A

abbrev pub update : (State → State) → Bundle (Unit {0})
update f s = ok tt (f s)

abbrev pub lift : {A : Type 0} → Result A BundlerError → Bundle A
lift (Result.ok a) s = ok a s
lift (Result.err e) s = err e s

unfoldable pub type_of : ModuleKey → List (ModuleKey × ImportType) → Option ImportType
type_of key [] = none
type_of key ((k, t) ∷ types) =
    let rest = type_of key types in if same_key key k then some t else rest

-- A module is pushed and its key is processed.
unfoldable pub push : ModuleKey → ModuleContents → Bundle (Unit {0})
push key contents = update λ s. record s {
  modules = record { key = key; contents = contents } ∷ s.modules;
  keys_processed = key ∷ s.keys_processed;
}

abbrev pub default_export : Text → ModuleContents
default_export value =
    ModuleContents.code
      (codes "module.exports.__esModule=true;module.exports.default=" ++ value ++ codes ";")

module _ (S : Setting) where
  abbrev as_json : Option Text → Result ModuleContents BundlerError
  as_json none = Result.err BundlerError.invalid_json
  as_json (some value) = Result.ok (default_export value)

  abbrev as_text : Option Text → Result ModuleContents BundlerError
  as_text none = Result.err BundlerError.invalid_utf8
  as_text (some value) = Result.ok (default_export (S.quote value))

  unfoldable pub contents_as :
      Option ImportType → Bool → List ℕ → Result ModuleContents BundlerError
  contents_as (some ImportType.json) is_json raw = as_json (S.reprint_json raw)
  contents_as (some ImportType.text) is_json raw = as_text (S.from_utf8 raw)
  contents_as (some ImportType.binary) is_json raw = Result.ok (ModuleContents.file raw)
  contents_as none true raw = as_json (S.reprint_json raw)
  contents_as none false raw = Result.ok (ModuleContents.file raw)

  abbrev of_rewritten :
      Rewritten → Result (List ModuleKey × List (ModuleKey × ImportType) × Text) BundlerError
  of_rewritten Rewritten.panicked = Result.err BundlerError.parse_errors
  of_rewritten Rewritten.has_errors = Result.err BundlerError.semantic_errors
  of_rewritten Rewritten.unresolved = Result.err BundlerError.unresolved_imports
  of_rewritten (Rewritten.rewritten imports types printed) = Result.ok (imports, types, printed)

  abbrev of_source :
      ModuleKey
      → Option Text
      → Result (List ModuleKey × List (ModuleKey × ImportType) × Text) BundlerError
  of_source key none = Result.err BundlerError.invalid_utf8
  of_source key (some source) = of_rewritten (S.rewrite key source)

  abbrev of_raw :
      ModuleKey
      → Option (List ℕ)
      → Result (List ModuleKey × List (ModuleKey × ImportType) × Text) BundlerError
  of_raw key none = Result.err BundlerError.not_read
  of_raw key (some raw) = of_source key (S.from_utf8 raw)

  -- From `source_text` to the printed code.
  unfoldable pub analyse :
      ModuleKey → Result (List ModuleKey × List (ModuleKey × ImportType) × Text) BundlerError
  analyse key = of_raw key (S.read key)

  -- The imports that are not processed.
  unfoldable pub unprocessed : List ModuleKey → List ModuleKey → List ModuleKey
  unprocessed processed [] = []
  unprocessed processed (k ∷ imports) =
      let rest = unprocessed processed imports in if contains processed k then rest else k ∷ rest

  unfoldable pub enqueue : List ModuleKey → Bundle (Unit {0})
  enqueue imports = update λ s. record s { queue = s.queue ++ unprocessed s.keys_processed imports }

  abbrev pub add_type : ModuleKey → ImportType → Option ImportType → Bundle (Unit {0})
  add_type key t none = update λ s. record s { import_types = (key, t) ∷ s.import_types }
  add_type key t (some existing) =
      if same_type existing t
      then return tt
      else fail (BundlerError.conflicting_import_types (specifier key) existing t)

  unfoldable pub add_types : List (ModuleKey × ImportType) → Bundle (Unit {0})
  unfolding type_of
  add_types [] s = ok tt s
  add_types ((key, t) ∷ types) s =
      (add_type key t (type_of key s.import_types) >> add_types types) s

  unfoldable pub process_file : ModuleKey → Bundle (Unit {0})
  unfolding push contents_as type_of
  process_file key s =
      (do
        raw ← expect (S.read key) BundlerError.not_read
        contents ← lift (contents_as (type_of key s.import_types) (S.has_json_extension key) raw)
        push key contents)
        s

  unfoldable pub process_script : ModuleKey → Bundle (Unit {0})
  unfolding analyse enqueue add_types push
  process_script key = do
    (imports, types, printed) ← lift (analyse key)
    enqueue imports
    add_types types
    push key (ModuleContents.code (codes "module.exports.__esModule=true;" ++ printed))

  unfoldable pub process : ModuleKey → Bundle (Unit {0})
  unfolding process_file process_script
  process (ModuleKey.browser_stub specifier) =
      push (ModuleKey.browser_stub specifier) (ModuleContents.code (codes "module.exports = {};"))
  process (ModuleKey.embedded s p) =
      if S.is_script (ModuleKey.embedded s p)
      then process_script (ModuleKey.embedded s p)
      else process_file (ModuleKey.embedded s p)
  process (ModuleKey.on_disk s p) =
      if S.is_script (ModuleKey.on_disk s p)
      then process_script (ModuleKey.on_disk s p)
      else process_file (ModuleKey.on_disk s p)

  -- A turn of the loop, with the turns that follow.
  unfoldable pub turn :
      Bundle (Unit {0}) → List ModuleKey → State → Run State BundlerError (Unit {0})
  unfolding process
  turn more [] s = ok tt s
  turn more (key ∷ queue) s =
      (if contains s.keys_processed key then more else (process key >> more))
        (record s { queue = queue })

  unfoldable pub collect : ℕ → Bundle (Unit {0})
  unfolding turn
  collect zero s = out_of_fuel
  collect (suc fuel) s = turn (collect fuel) s.queue s

  -- The modules of the entry that the specifier names. The path of the directory is made canonical
  -- first, and `resolve` resolves from that path.
  unfoldable pub modules_of : ℕ → String → Run State BundlerError (Unit {0})
  unfolding collect
  modules_of fuel entry =
      (expect S.canonicalizes BundlerError.not_canonical >>= λ canonical.
      expect (S.resolve entry) BundlerError.not_resolved >>= λ key.
      λ s. collect fuel (record s { queue = key ∷ [] }))
        (record { modules = []; keys_processed = []; import_types = []; queue = [] })
