-- ===== src/Trace/Tests.antt =====
-- The theorem of `Trace` at a trace of two states, and of a third one at the time of the second.
use bombadil.Common.{ℕ, Option, none, some, List, [], ◌∷◌, ◌≡◌, refl}
use bombadil.Common.Text.{codes, same_text, decimal}
use bombadil.Common.Run.{Ends, failure, and_then}
use bombadil.Trace.{Setting, Request, Failure, initialize, screenshot_path, write_all}
use bombadil.Trace.Chain.{Added, Left, wanted, write_all-initialize-Added}

abbrev setting : Setting
setting = record { Point = ℕ; Resources = Unit {0} }

abbrev request : ℕ → ℕ → Request setting
request nanos hash = record {
  since_epoch = some nanos;
  url = codes "https://a.org";
  transition_hash = some hash;
  extension = codes "webp";
  data_of_screenshot = 1 ∷ 2 ∷ [];
  resources = tt;
  last_action = none;
  snapshots = [];
  violations = [];
  creates = some tt;
  writes_screenshot = some tt;
  serializes = some tt;
  writes_entry = some tt;
  writes_newline = some tt;
}

abbrev requests : List (Request setting)
requests = request 5000 11 ∷ request 9000 22 ∷ request 9900 33 ∷ []

-- The path of a screenshot is taken by a state of the same microsecond.
taken :
    ◌≡◌ {A = Option Failure}
      (failure (
        and_then
          (initialize setting (some tt) (some tt) [] [])
          λ _. write_all setting (codes "s") requests))
      (some Failure.not_created)
unfolding write_all initialize screenshot_path same_text decimal
taken = refl

write_all-initialize-Added_example :
    Ends
      (λ _ w. Added setting [] (wanted setting requests) w)
      (λ w. Left setting [] (wanted setting requests) w)
      (and_then
        (initialize setting (some tt) (some tt) [] [])
        λ _. write_all setting (codes "s") requests)
write_all-initialize-Added_example =
    write_all-initialize-Added setting (codes "s") requests (some tt) (some tt) [] []
