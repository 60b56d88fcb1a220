-- ===== src/Lib.antt =====
-- Bombadil, a property-based tester for web user interfaces, as far as its own logic goes.
--
-- A specification exports properties, which are formulas of a temporal logic, and generators of
-- actions. The runner (lib/bombadil/src/runner.rs) waits for states of the browser. For each state
-- it has the verifier (lib/bombadil/src/specification/verifier.rs) step every property, which is
-- done by the evaluator of the logic (lib/bombadil-ltl/src), and picks the next action from a
-- weighted tree (lib/bombadil/src/tree.rs).
--
-- Ltl models lib/bombadil-ltl/src: Formula and Syntax are formula.rs and syntax.rs, Violation is
-- violation.rs, Stop is stop.rs; Value, Combine, Attach and Eval are eval.rs. The methods of
-- `Evaluator` keep their names. A Rust `&mut` closure is a computation in a host state
-- (Common.Run), so that its order of calls and its errors show. A thunk may return a formula with
-- thunks in it, with no bound in the source: `fuel` counts how deep thunks are entered inside one
-- another, and a formula that `Fits` the fuel never runs out of it. Ltl.Semantics is the
-- specification: what a formula says of a finite trace, for formulas without time bounds; the
-- operators' bounds are modelled in Combine and Eval.
--
-- Browser models the state machine of lib/bombadil/src/browser.rs. Browser.Protocol has its state
-- and events, Browser.Capture the captures, Browser.Machine the one match of `process_event`,
-- split by event (on_paused for `Paused` and so on), with its guards in the source's order. An
-- event comes with the answers that the page gives while it is handled. What the machine does to
-- the page, to its channels and by tasks that it spawns is a list of effects, the latest first; an
-- event that such a task sends later is an event of the run. A failure (`?`, `bail!`) ends the run
-- and keeps the effects before it. Types of the debugging protocol's library that are only passed
-- on are fields of `Protocol`.
--
-- Tree models lib/bombadil/src/tree.rs, its methods under their names; a loop over the branches is
-- a second function beside the method. The random numbers are a parameter, `Rng`, of which
-- `IsBounded` says that a number drawn from a range is in it.
--
-- Verifier models `Verifier::step` of lib/bombadil/src/specification/verifier.rs. What the
-- JavaScript engine does (updating extractors, calling thunks, reading formulas, generating
-- actions) is the parameter `Runtime`. Verifier.Follow ties the state of a property to the meaning
-- of its formula, and Verifier.Persist has one property go through many states.
--
-- Runner models `Runner::run_test` of lib/bombadil/src/runner.rs in Runner.Loop, with actions
-- (Runner.Action, from browser/actions.rs and specification/js.rs) and URLs (Runner.Url, from
-- url.rs). An event comes with the answers of the extractors, the verifier, the observer and the
-- browser; what is done to the observer and the browser is a list of effects, the latest first.
--
-- Cli models the observer of lib/bombadil-cli/src/main.rs (`MainObserver`, the nested functions
-- under their names) and the exit code. Cli.Through has it go through the states of a test as the
-- runner does, and Cli.Counts is about where it stops. Cli.Heading has the summary that is printed
-- at the end of a test.
--
-- Snapshots models the map of snapshots of lib/bombadil/src/specification/domain.rs, its
-- `BTreeMap` as a list in the order of the keys; it is what the domain of the logic calls a state.
--
-- Runner.Apply models `BrowserAction::apply` of lib/bombadil/src/browser/actions.rs over a page
-- that answers; what is sent to the page is a list of commands. Runner.Outcome says from the
-- action alone which ones are expected and how it is to end, which Runner.Sends compares with the
-- code. Keys is the table of lib/bombadil-browser-keys/src/lib.rs that it reads.
--
-- Cli.Durations models lib/bombadil-cli/src/duration.rs on texts as lists of characters
-- (Common.Text), Cli.Render render.rs beside it.
--
-- Schema models lib/bombadil-schema/src: Schema.Time has the times and the durations of schema.rs
-- and duration.rs, with the wrapping of 64 bits written out, Schema.Types the snapshots, formulas,
-- violations and entries of a trace. Convert models lib/bombadil/src/specification/convert.rs and
-- the values of worker.rs; its BombadilDomain makes the logic's states the maps of Snapshots.
--
-- Rendering models how a violation is shown: Rendering.Violations is markup.rs of
-- lib/bombadil-schema, Rendering.Json and Rendering.Styled are lib/bombadil/src/styled.rs. What
-- colors a text is a parameter, `Style`. The text of markup is rendered with fuel for the depth of
-- joins and stacks, as Rendering.Styled bounds it; Rendering.Depth is about why that is enough.
--
-- Trace models lib/bombadil/src/trace: the writer with the hash of the last state, over a host
-- that holds the files. A request comes with what the file system answers.
--
-- Bundler models the loop of lib/bombadil/src/specification/bundler/mod.rs that collects the
-- modules of a specification, the text of the bundle, and the keys of resolver.rs, with a path as
-- the list of its components. Parsing, rewriting and printing a script, reading a file and
-- resolving a name are the parameter `Setting`. The loop runs on fuel; one round for each import
-- of each module, and one for the entry, are enough where the modules are finitely many.
--
-- Not modelled: what drives the browser, the JavaScript engine and terminals, the rewriting of
-- scripts, and the user interface for traces (the rest of lib/bombadil/src/browser, specification
-- and instrumentation, lib/bombadil-inspect, lib/bombadil-terminal), whose answers are inputs of
-- the parts above; the log; and the map of edges in `run_test`, which only the log reads.
pub mod Common
pub mod Ltl
pub mod Browser
pub mod Tree
pub mod Verifier
pub mod Runner
pub mod Cli
pub mod Snapshots
pub mod Keys
pub mod Schema
pub mod Rendering
pub mod Convert
pub mod Trace
pub mod Bundler
