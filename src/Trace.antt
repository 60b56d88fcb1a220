-- ===== src/Trace.antt =====
-- lib/bombadil/src/trace: the entries of a trace and the writer of its file. What the file system
-- answers is in the request of a write; where a write to a file fails, nothing was added to it.
pub mod Chain
mod Tests
use bombadil.Common.{
  ℕ, ◌/◌, ◌%◌, ◌^◌, Bool, true, false, String, Option, none, some, List, [], ◌∷◌, ◌++◌, map, ◌||◌,
  if◌then◌else◌,
}
use bombadil.Common.Text.{Text, codes, decimal, same_text}
use bombadil.Common.Run.{Run, Comp, return, fail, expect, ok, ◌>>=◌, ◌>>◌}
use bombadil.Schema.Types as Schema
use bombadil.Runner.Action.{Float, BrowserAction}
use bombadil.Convert.{Snapshot, snapshot_to_schema}

-- What is not in the source here: `Point` and its conversion, and the resources.
pub record Setting : Type 1 where
  pub Point : Type 0
  pub Resources : Type 0

-- `BrowserAction::to_api` of lib/bombadil/src/browser/actions.rs. A point keeps its coordinates.
unfoldable pub to_api : {Point : Type 0} → BrowserAction Point → Schema.BrowserAction Point Float
to_api BrowserAction.back = Schema.BrowserAction.back
to_api BrowserAction.forward = Schema.BrowserAction.forward
to_api (BrowserAction.click name content point) = Schema.BrowserAction.click name content point
to_api (BrowserAction.double_click name content point delay_millis) =
    Schema.BrowserAction.double_click name content point delay_millis
to_api (BrowserAction.type_text text delay_millis) =
    Schema.BrowserAction.type_text text delay_millis
to_api (BrowserAction.press_key code) = Schema.BrowserAction.press_key code
to_api (BrowserAction.scroll_up origin distance) = Schema.BrowserAction.scroll_up origin distance
to_api (BrowserAction.scroll_down origin distance) =
    Schema.BrowserAction.scroll_down origin distance
to_api BrowserAction.reload = Schema.BrowserAction.reload
to_api BrowserAction.wait = Schema.BrowserAction.wait
to_api (BrowserAction.set_file_input_files selector files) =
    Schema.BrowserAction.set_file_input_files selector files

abbrev action_to_api :
    {Point : Type 0} → Option (BrowserAction Point) → Option (Schema.BrowserAction Point Float)
action_to_api none = none
action_to_api (some action) = some (to_api action)

pub data Failure : Type 0 where
  before_epoch not_created not_written not_serialized : Failure
  directory_not_created trace_not_opened : Failure

module _ (S : Setting) where
  pub record TraceEntry : Type 0 where
    pub nanos : ℕ
    pub url : Text
    pub hash_previous : Option ℕ
    pub hash_current : Option ℕ
    pub action : Option (BrowserAction S.Point)
    pub screenshot : Text
    pub snapshots : List Snapshot
    pub violations : List Schema.PropertyViolation
    pub resources : S.Resources

  -- The violations of an entry are the ones of the schema already.
  unfoldable pub to_schema : TraceEntry → Schema.TraceEntry S.Point Float S.Resources
  unfolding to_api snapshot_to_schema
  to_schema entry = record {
    timestamp = entry.nanos / 1000 % 2 ^ 64;
    url = entry.url;
    hash_previous = entry.hash_previous;
    hash_current = entry.hash_current;
    action = action_to_api entry.action;
    screenshot = entry.screenshot;
    snapshots = map snapshot_to_schema entry.snapshots;
    violations = entry.violations;
    resources = entry.resources;
  }

  -- The arguments of `write`, and what is answered. The time is in nanoseconds since the epoch, or
  -- none before it.
  pub record Request : Type 0 where
    pub since_epoch : Option ℕ
    pub url : Text
    pub transition_hash : Option ℕ
    pub extension : Text
    pub data_of_screenshot : List ℕ
    pub resources : S.Resources
    pub last_action : Option (BrowserAction S.Point)
    pub snapshots : List Snapshot
    pub violations : List Schema.PropertyViolation
    pub creates : Option (Unit {0})
    pub writes_screenshot : Option (Unit {0})
    pub serializes : Option (Unit {0})
    pub writes_entry : Option (Unit {0})
    pub writes_newline : Option (Unit {0})

  pub data Piece : Type 0 where
    json : Schema.TraceEntry S.Point Float S.Resources → Piece
    newline : Piece

  -- The writer with the files that it has written: screenshots by their paths, and the trace.
  pub record Host : Type 0 where
    pub last_transition_hash : Option ℕ
    pub screenshots : List (Text × List ℕ)
    pub trace : List Piece

  abbrev pub is_taken : Text → List (Text × List ℕ) → Bool
  is_taken path [] = false
  is_taken path ((p, d) ∷ files) = same_text path p || is_taken path files

  abbrev pub update : (Host → Host) → Comp Host Failure (Unit {0})
  update f host = ok tt (f host)

  -- `File::create_new`, which fails for a path that exists.
  unfoldable pub create_new : Text → Option (Unit {0}) → Comp Host Failure (Unit {0})
  create_new path creates host =
      (if is_taken path host.screenshots then fail Failure.not_created else (do
        expect creates Failure.not_created
        update λ h. record h { screenshots = (path, []) ∷ h.screenshots }))
        host

  abbrev pub fill : List ℕ → List (Text × List ℕ) → List (Text × List ℕ)
  fill bytes [] = []
  fill bytes ((p, _) ∷ files) = (p, bytes) ∷ files

  abbrev pub append : Piece → Host → Host
  append piece host = record host { trace = host.trace ++ piece ∷ [] }

  unfoldable pub screenshot_path : Text → ℕ → Text → Text
  screenshot_path screenshots_path nanos extension =
      screenshots_path ++ codes "/" ++ decimal (nanos / 1000) ++ codes "." ++ extension

  abbrev pub entry_of : Request → ℕ → Text → Option ℕ → TraceEntry
  entry_of r nanos path previous = record {
    nanos = nanos;
    url = r.url;
    hash_previous = previous;
    hash_current = r.transition_hash;
    action = r.last_action;
    screenshot = path;
    snapshots = r.snapshots;
    violations = r.violations;
    resources = r.resources;
  }

  -- From the assignment of `last_transition_hash` on, with the hash before it.
  unfoldable pub write_entry : Request → ℕ → Text → Comp Host Failure (Unit {0})
  unfolding to_schema
  write_entry r nanos path host =
      (do
        update λ h. record h { last_transition_hash = r.transition_hash }
        expect r.serializes Failure.not_serialized
        expect r.writes_entry Failure.not_written
        update (append (Piece.json (to_schema (entry_of r nanos path host.last_transition_hash))))
        expect r.writes_newline Failure.not_written
        update (append Piece.newline))
        host

  unfoldable pub write : Text → Request → Comp Host Failure (Unit {0})
  unfolding create_new screenshot_path write_entry
  write screenshots_path r = do
    nanos ← expect r.since_epoch Failure.before_epoch
    let path = screenshot_path screenshots_path nanos r.extension
    create_new path r.creates
    expect r.writes_screenshot Failure.not_written
    update λ h. record h { screenshots = fill r.data_of_screenshot h.screenshots }
    write_entry r nanos path

  -- `initialize`: a writer without a hash, where the directory can be made and the trace file
  -- opened. The directory may have screenshots, and the file content already.
  unfoldable pub initialize :
      Option (Unit {0})
      → Option (Unit {0})
      → List (Text × List ℕ)
      → List Piece
      → Run Host Failure (Unit {0})
  initialize creates_directory opens_trace screenshots trace =
      (do
        expect creates_directory Failure.directory_not_created
        expect opens_trace Failure.trace_not_opened)
        (record { last_transition_hash = none; screenshots = screenshots; trace = trace })

  -- The writes of a test, which ends at the first failure.
  unfoldable pub write_all : Text → List Request → Comp Host Failure (Unit {0})
  unfolding write
  write_all screenshots_path [] = return tt
  write_all screenshots_path (r ∷ requests) = do
    write screenshots_path r
    write_all screenshots_path requests
