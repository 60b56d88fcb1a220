-- ===== src/Rendering/Markup.antt =====
-- The markup of lib/bombadil-schema/src/markup.rs.
use bombadil.Common.{ℕ, List, [], ◌∷◌}
use bombadil.Common.Text.{Text}
use bombadil.Schema.Types.{Json}

pub data Inline : Type 0 where
  text code keyword : Text → Inline
  time : ℕ → Inline

pub record SnapshotMarkup : Type 0 where
  pub name : Text
  pub value : Json

-- The vectors of a stack and of a join are lists of their own.
mutual
  pub data Markup : Type 0 where
    span : List Inline → Markup
    code_block : Text → Markup
    snapshots : List SnapshotMarkup → Markup
    stack join : Markups → Markup
    comma : Markup

  pub data Markups : Type 0 where
    nil : Markups
    cons : Markup → Markups → Markups

abbrev pub vec : List Markup → Markups
vec [] = Markups.nil
vec (m ∷ ms) = Markups.cons m (vec ms)
