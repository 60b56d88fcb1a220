-- ===== src/Cli/Heading.antt =====
-- lib/bombadil-cli/src/main.rs: what `test` prints when a test has ended.
use bombadil.Common.{ℕ, zero, suc, Option, none, some, ◌++◌, ltb, if◌then◌else◌}
use bombadil.Common.Text.{Text, codes, decimal}
use bombadil.Rendering.Json.{Style, maybe_bold, maybe_italic, maybe_red}
use bombadil.Cli.Observer.{ExitReason, TestResult}

unfoldable pub findings_text : ℕ → Text
findings_text zero = codes ""
findings_text (suc zero) = codes ", finding 1 violation"
findings_text (suc (suc n)) = codes ", finding " ++ decimal (suc (suc n)) ++ codes " violations"

unfoldable pub reason_text : ExitReason → Text → Text
reason_text ExitReason.exit_on_violation findings = codes "Test finished" ++ findings ++ codes "!"
reason_text ExitReason.time_limit findings =
    codes "Test finished after time limit" ++ findings ++ codes "!"
reason_text ExitReason.interrupted findings =
    codes "Test was interrupted by SIGINT" ++ findings ++ codes "!"

module _ (style : Style) where
  unfoldable pub heading_of : Option TestResult → Text
  unfolding findings_text reason_text
  heading_of none = maybe_bold style (codes "Test finished!")
  heading_of (some result) =
      let heading =
        maybe_bold style (reason_text result.exit_reason (findings_text result.violations_count)) in
      if ltb 0 result.violations_count then maybe_red style heading else heading

  -- The end of the output, with the path as `display` shows it.
  unfoldable pub summary : Option TestResult → Text → Text
  unfolding heading_of
  summary result output_path =
      codes "\n"
      ++ heading_of result
      ++ codes "\n\nInspect the test results using:\n\n  "
      ++ maybe_italic style (codes "bombadil inspect " ++ output_path)
      ++ codes "\n"
