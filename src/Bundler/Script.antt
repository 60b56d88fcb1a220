-- ===== src/Bundler/Script.antt =====
-- The text of the bundle that lib/bombadil/src/specification/bundler/mod.rs returns.
use mathlib.Core.List.{reverse}
use bombadil.Common.{ℕ, String, Option, none, some, List, [], ◌∷◌, ◌++◌, ◌==◌, if◌then◌else◌}
use bombadil.Common.Text.{Text, codes, decimal}
use bombadil.Bundler.Keys.{ModuleKey, specifier}
use bombadil.Bundler.Modules.{Module, ModuleContents, State}

-- Paths without a prefix, where they have it, and the print of a text with quotes, `{:?}`.
pub record Printing : Type 0 where
  pub strip_base : List String → Option Text
  pub debug : Text → Text

-- `str::lines`: a line ends at a line feed, with a carriage return before it or not, and the last
-- line may have no end. `line` has the characters so far, the latest first.
abbrev without_return : Text → Text
without_return [] = []
without_return (c ∷ line) = if c == 13 then line else c ∷ line

abbrev last_line : Text → List Text
last_line [] = []
last_line (c ∷ line) = reverse (c ∷ line) ∷ []

unfoldable pub lines_after : Text → Text → List Text
lines_after line [] = last_line line
lines_after line (c ∷ s) =
    let ended = lines_after [] s in
    let longer = lines_after (c ∷ line) s in
    if c == 10 then reverse (without_return line) ∷ ended else longer

unfoldable pub indented : List Text → Text
indented [] = []
indented (line ∷ lines) = codes "    " ++ line ++ 10 ∷ indented lines

unfoldable pub byte_list : List ℕ → Text
byte_list [] = []
byte_list (byte ∷ bytes) = decimal byte ++ codes "," ++ byte_list bytes

unfoldable pub contents_text : ModuleContents → Text
unfolding lines_after indented byte_list
contents_text (ModuleContents.code code) = indented (lines_after [] code)
contents_text (ModuleContents.file contents) =
    codes "    module.exports.default = (new Uint8Array(["
    ++ byte_list contents
    ++ codes "])).buffer;\n"

-- What stands before the modules.
abbrev pub runtime : Text
runtime =
    codes "(function() {\n"
    ++ codes "  const modules = {};\n"
    ++ codes "  const cache = {};\n"
    ++ codes "\n"
    ++ codes "  function require(path) {\n"
    ++ codes "    if (cache[path]) {\n"
    ++ codes "      return cache[path].exports;\n"
    ++ codes "    }\n"
    ++ codes "\n"
    ++ codes "    const module = { exports: {} };\n"
    ++ codes "    cache[path] = module;\n"
    ++ codes "\n"
    ++ codes "    if (!modules[path]) {\n"
    ++ codes "      throw new Error(\"Module not found: \" + path);\n"
    ++ codes "    }\n"
    ++ codes "\n"
    ++ codes "    modules[path](module, module.exports, require);\n"
    ++ codes "\n"
    ++ codes "    // ESM interop: ensure .default exists for pure CommonJS modules\n"
    ++ codes
        "    // Skip if module already has __esModule marker (transpiled ESM) or .default property\n"
    ++ codes
        "    if (!module.exports.__esModule && typeof module.exports.default === 'undefined') {\n"
    ++ codes "      module.exports.default = module.exports;\n"
    ++ codes "    }\n"
    ++ codes "\n"
    ++ codes "    return module.exports;\n"
    ++ codes "  }\n"
    ++ codes "\n"
    ++ codes "  globalThis.__bombadilRequire = require;\n"
    ++ codes "\n"

module _ (P : Printing) where
  abbrev path_or : ModuleKey → Option Text → Text
  path_or key none = codes (specifier key)
  path_or key (some path) = codes "./" ++ path

  unfoldable pub module_key_to_relative_path : ModuleKey → Text
  module_key_to_relative_path (ModuleKey.browser_stub name) = codes name
  module_key_to_relative_path (ModuleKey.embedded name path) =
      path_or (ModuleKey.embedded name path) (P.strip_base path)
  module_key_to_relative_path (ModuleKey.on_disk name path) =
      path_or (ModuleKey.on_disk name path) (P.strip_base path)

  unfoldable pub modules_text : List Module → Text
  unfolding contents_text module_key_to_relative_path
  modules_text [] = []
  modules_text (m ∷ modules) =
      codes "  modules["
      ++ P.debug (module_key_to_relative_path m.key)
      ++ codes "] = function(module, exports, require) {\n"
      ++ contents_text m.contents
      ++ codes "  };\n\n"
      ++ modules_text modules

  abbrev entry_text : List Module → Text
  entry_text [] = codes "  return {};\n"
  entry_text (entry ∷ modules) =
      codes "  return require(" ++ P.debug (module_key_to_relative_path entry.key) ++ codes ");\n"

  -- The script of the modules that were collected, of which the state has the latest first.
  unfoldable pub bundle_text : State → Text
  unfolding modules_text
  bundle_text s =
      let modules = reverse s.modules in
      runtime ++ modules_text modules ++ entry_text modules ++ codes "})();\n"
