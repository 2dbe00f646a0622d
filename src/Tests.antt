-- ===== src/Tests.antt =====
-- Sample data, and runs of the model at it.
pub mod Queue
pub mod Subscriptions
pub mod Prices
pub mod Histories
pub mod Processing
pub mod Webhook
pub mod Store
pub mod Buckets
pub mod Saved
pub mod BlackMarket
use albion_market_api.Prelude.{ℕ, ◌+◌, ◌*◌, Option, none, some, List, [], ◌∷◌, if◌then◌else◌}
use albion_market_api.Text.{Text, Platform, lit, text_eq}
use albion_market_api.Clock.{Time, hour}

abbrev pub day_one : Time
day_one = 63_800_000_000_000_000_000

abbrev pub day_two : Time
day_two = day_one + 24 * hour

abbrev pub day_three : Time
day_three = day_two + 24 * hour

-- Two dates that parse, and no other.
abbrev parse : Text → Option ℕ
parse s =
    if text_eq s (lit "2022-09-21T00:00:00Z")
    then some day_one
    else if text_eq s (lit "2022-09-22T00:00:00Z")
    then some day_two
    else if text_eq s (lit "2022-09-23T00:00:00Z")
    then some day_three
    else none

instance abbrev pub ascii : Platform
ascii = record { lower = λ c. c; upper = λ c. c; parse_rfc3339 = parse; sha256_head = λ s. 7 }
