-- ===== src/Schema/Tests.antt =====
-- The theorem of `Schema` at a late time.
use bombadil.Common.{◌-◌, ◌^◌, none, some, true, ◌≡◌, refl}
use bombadil.Common.Text.{codes, decimal}
use bombadil.Schema.Time.{Duration, checked_add, padded2, padded3, format_duration}
use bombadil.Schema.Agree.{Agrees, checked_add-Agrees}

abbrev two_seconds : Duration
two_seconds = record { secs = 2; nanos = 5000000 }

sum : checked_add 1000000 two_seconds ≡ some 3005000
unfolding checked_add
sum = refl

no_sum : checked_add (2 ^ 64 - 2000000) two_seconds ≡ none
unfolding checked_add
no_sum = refl

shows : format_duration two_seconds true ≡ codes "00:02.005"
unfolding format_duration padded2 padded3 decimal
shows = refl

checked_add-Agrees_example : Agrees 1000000 two_seconds (checked_add 1000000 two_seconds)
checked_add-Agrees_example = checked_add-Agrees 1000000 two_seconds
