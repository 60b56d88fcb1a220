-- ===== src/Schema/Types.antt =====
-- The snapshots, formulas and violations of lib/bombadil-schema/src/schema.rs.
use bombadil.Common.{ℕ, Bool, String, Option, List}
use bombadil.Common.Text.{Text}
use bombadil.Schema.Time.{Duration}

-- `serde_json::Value`. A number is the text that it is displayed as; the members of an object stand
-- in the order of the map.
mutual
  pub data Json : Type 0 where
    null : Json
    bool : Bool → Json
    number : Text → Json
    string : Text → Json
    array : Items → Json
    object : Members → Json

  pub data Items : Type 0 where
    no_items : Items
    item : Json → Items → Items

  pub data Members : Type 0 where
    no_members : Members
    member : Text → Json → Members → Members

-- A time is its microseconds.
pub record Snapshot : Type 0 where
  pub index : ℕ
  pub name : Option String
  pub value : Json
  pub time : ℕ

pub data EventuallyViolation : Type 0 where
  timed_out : ℕ → EventuallyViolation
  test_ended : EventuallyViolation

pub data Formula : Type 0 where
  pure : Bool → String → Formula
  thunk : String → Bool → Formula
  and or implies : Formula → Formula → Formula
  next : Formula → Formula
  always eventually : Formula → Option Duration → Formula

-- `false_at time condition snapshots`, `always violation subformula start end time` and
-- `implies left right antecedent_snapshots`.
pub data Violation : Type 0 where
  false_at : ℕ → String → List Snapshot → Violation
  eventually : Formula → EventuallyViolation → Violation
  always : Violation → Formula → ℕ → Option ℕ → ℕ → Violation
  and or : Violation → Violation → Violation
  implies : Formula → Violation → List Snapshot → Violation

pub record PropertyViolation : Type 0 where
  pub name : String
  pub violation : Violation

-- `double_click name content point delay_millis`, `type_text text delay_millis`, and the origins and
-- distances of scrolls.
pub data BrowserAction (Point Float : Type 0) : Type 0 where
  back forward reload wait : BrowserAction Point Float
  click : String → Option String → Point → BrowserAction Point Float
  double_click : String → Option String → Point → ℕ → BrowserAction Point Float
  type_text : String → ℕ → BrowserAction Point Float
  press_key : ℕ → BrowserAction Point Float
  scroll_up scroll_down : Point → Float → BrowserAction Point Float
  set_file_input_files : String → List String → BrowserAction Point Float

pub record TraceEntry (Point Float Resources : Type 0) : Type 0 where
  pub timestamp : ℕ
  pub url : Text
  pub hash_previous : Option ℕ
  pub hash_current : Option ℕ
  pub action : Option (BrowserAction Point Float)
  pub screenshot : Text
  pub snapshots : List Snapshot
  pub violations : List PropertyViolation
  pub resources : Resources
