-- ===== src/Rendering/Json.antt =====
-- How lib/bombadil/src/styled.rs shows the value of a snapshot.
use bombadil.Common.{
  ℕ, suc, Bool, true, false, ◌&&◌, ◌||◌, List, [], ◌∷◌, ◌++◌, ltb, leb, ◌==◌, if◌then◌else◌,
}
use bombadil.Common.Text.{Text, codes, same_text}
use bombadil.Schema.Types.{Json, Items, Members}

-- What the libraries `supports_color`, `owo_colors` and `serde_json` do.
pub record Style : Type 0 where
  pub supports_color : Bool
  pub blue : Text → Text
  pub bold : Text → Text
  pub italic : Text → Text
  pub dimmed : Text → Text
  pub red : Text → Text
  pub to_string : Text → Text

unfoldable pub is_json_inline : Json → Bool
is_json_inline (Json.array Items.no_items) = true
is_json_inline (Json.array (Items.item _ _)) = false
is_json_inline (Json.object Members.no_members) = true
is_json_inline (Json.object (Members.member _ _ _)) = false
is_json_inline _ = true

-- `char::is_control`: the characters of the category Cc.
unfoldable pub is_control : ℕ → Bool
is_control c = leb c 31 || (leb 127 c && leb c 159)

unfoldable pub any_control : Text → Bool
any_control [] = false
any_control (c ∷ s) = is_control c || any_control s

unfoldable pub is_one_of : Text → List Text → Bool
is_one_of s [] = false
is_one_of s (t ∷ ts) = same_text s t || is_one_of s ts

unfoldable pub contains_pair : ℕ → ℕ → Text → Bool
contains_pair a b [] = false
contains_pair a b (c ∷ []) = false
contains_pair a b (c ∷ d ∷ s) = ((c == a) && (d == b)) || contains_pair a b (d ∷ s)

abbrev pub reserved : List Text
reserved =
    codes "true"
    ∷ codes "false"
    ∷ codes "True"
    ∷ codes "False"
    ∷ codes "TRUE"
    ∷ codes "FALSE"
    ∷ codes "yes"
    ∷ codes "no"
    ∷ codes "Yes"
    ∷ codes "No"
    ∷ codes "YES"
    ∷ codes "NO"
    ∷ codes "null"
    ∷ codes "Null"
    ∷ codes "NULL"
    ∷ codes "~"
    ∷ []

abbrev pub indicators : Text
indicators = codes "[]{},&*#?|-<>=!%@`'\":"

unfoldable pub is_indicator : ℕ → Text → Bool
is_indicator c [] = false
is_indicator c (d ∷ s) = (c == d) || is_indicator c s

unfoldable pub is_simple_string : Text → Bool
is_simple_string [] = false
is_simple_string (first ∷ rest) =
    let s = first ∷ rest in
    if any_control s
    then false
    else if is_one_of s reserved
    then false
    else if is_indicator first indicators
    then false
    else if contains_pair b':' b' ' s
    then false
    else if contains_pair b' ' b'#' s
    then false
    else true

unfoldable pub before_text : Text → Text → Bool
before_text s [] = false
before_text [] (d ∷ t) = true
before_text (c ∷ s) (d ∷ t) = ltb c d || ((c == d) && before_text s t)

-- `sort_by_key`, which is stable.
unfoldable pub insert_by_key : Text × Text → List (Text × Text) → List (Text × Text)
insert_by_key entry [] = entry ∷ []
insert_by_key entry (other ∷ entries) =
    let rest = insert_by_key entry entries in
    if before_text other.0 entry.0 then other ∷ rest else entry ∷ other ∷ entries

unfoldable pub sort_by_key : List (Text × Text) → List (Text × Text)
unfolding insert_by_key
sort_by_key [] = []
sort_by_key (entry ∷ entries) = insert_by_key entry (sort_by_key entries)

-- `"  ".repeat(n)`.
unfoldable pub indentation : ℕ → Text
indentation ℕ.zero = []
indentation (suc n) = b' ' ∷ b' ' ∷ indentation n

unfoldable pub render_entries : ℕ → List (Text × Text) → Text
render_entries indent [] = []
render_entries indent ((key, value) ∷ entries) =
    10 ∷ indentation (suc indent) ++ key ++ codes ": " ++ value ++ render_entries indent entries

module _ (style : Style) where
  unfoldable pub maybe_blue : Text → Text
  maybe_blue s = if style.supports_color then style.blue s else s

  unfoldable pub maybe_bold : Text → Text
  maybe_bold s = if style.supports_color then style.bold s else s

  unfoldable pub maybe_italic : Text → Text
  maybe_italic s = if style.supports_color then style.italic s else s

  unfoldable pub maybe_dimmed : Text → Text
  maybe_dimmed s = if style.supports_color then style.dimmed s else s

  unfoldable pub maybe_red : Text → Text
  maybe_red s = if style.supports_color then style.red s else s

  -- What is pushed to the output. The values of an object are rendered before its entries are
  -- sorted.
  unfoldable mutual
    pub render_json_value : Json → ℕ → Text
    render_json_value Json.null indent = maybe_blue (codes "null")
    render_json_value (Json.bool true) indent = maybe_blue (codes "true")
    render_json_value (Json.bool false) indent = maybe_blue (codes "false")
    render_json_value (Json.number n) indent = maybe_blue n
    render_json_value (Json.string s) indent =
        if is_simple_string s then maybe_blue s else maybe_blue (style.to_string s)
    render_json_value (Json.array Items.no_items) indent = maybe_blue (codes "[]")
    render_json_value (Json.array (Items.item v vs)) indent = render_items (Items.item v vs) indent
    render_json_value (Json.object Members.no_members) indent = maybe_blue (codes "{}")
    render_json_value (Json.object (Members.member k v ms)) indent =
        render_entries indent (sort_by_key (render_members (Members.member k v ms) indent))

    pub render_items : Items → ℕ → Text
    render_items Items.no_items indent = []
    render_items (Items.item v vs) indent =
        10 ∷ indentation (suc indent)
        ++ codes "- "
        ++ render_json_value v (suc indent)
        ++ render_items vs indent

    pub render_members : Members → ℕ → List (Text × Text)
    render_members Members.no_members indent = []
    render_members (Members.member k v ms) indent =
        (k, render_json_value v (suc indent)) ∷ render_members ms indent
