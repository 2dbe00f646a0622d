-- ===== src/BlackMarket/Risk.antt =====
-- internal/blackmarket/opportunities_helpers.go: the assessment of one opportunity, and the warnings
-- of an answer.
pub mod Levels
use albion_market_api.Prelude.{
  ℕ, suc, ◌+◌, ◌-◌, ◌*◌, ◌/◌, ◌%◌, Bool, true, false, not, ◌&&◌, ◌||◌, Option, none, some, List, [],
  ◌∷◌, ◌++◌, leb, ltb, ◌==◌, length, get_elem?, if◌then◌else◌,
}
use albion_market_api.Prelude.Int.{ℤ, pos}
use albion_market_api.Int64.{lt, le}
use albion_market_api.Text.{
  Text, Platform, lit, text_eq, has_prefix, after_first, to_upper, format_int, is_empty, utf8,
}
use albion_market_api.Clock.{Time, minute}

-- `ageMinutes`: whole minutes, and zero for a date in the future. Two things are left out: the rounding
-- of `float64` in `Minutes`, which shows only at ages of months that are within a nanosecond of the
-- next minute, and the bound of `Sub` at 2^63 nanoseconds.
unfoldable pub age_minutes : Time → Time → ℕ
age_minutes now observed = if ltb now observed then 0 else (now - observed) / minute

-- `OpportunityCompetition`.
pub record Competition : Type 0 where
  pub available : Bool
  pub purchase_unit_price : Option ℤ
  pub purchase_quality : Option ℤ
  pub purchase_price_date : Option Time
  pub age : Option ℕ
  pub profit : Option ℤ
  pub can_fill_profitably : Bool

-- The columns of `opportunityRow` that the competition reads.
pub record CaerleonRow : Type 0 where
  pub unit_price : Option ℤ
  pub quality : Option ℤ
  pub price_date : Option Time
  pub profit : Option ℤ

abbrev pub no_competition : Competition
no_competition = record {
  available = false;
  purchase_unit_price = none;
  purchase_quality = none;
  purchase_price_date = none;
  age = none;
  profit = none;
  can_fill_profitably = false;
}

abbrev pub is_positive : Option ℤ → Bool
is_positive none = false
is_positive (some n) = lt (pos 0) n

abbrev pub competition_of : Time → Option ℤ → Option ℤ → Option Time → Option ℤ → Competition
competition_of now none quality date profit = no_competition
competition_of now (some price) none date profit = no_competition
competition_of now (some price) (some quality) none profit = no_competition
competition_of now (some price) (some quality) (some date) profit = record {
  available = true;
  purchase_unit_price = some price;
  purchase_quality = some quality;
  purchase_price_date = some date;
  age = some (age_minutes now date);
  profit = profit;
  can_fill_profitably = is_positive profit;
}

-- `buildOpportunityCompetition`.
unfoldable pub build_competition : Time → CaerleonRow → Competition
unfolding age_minutes
build_competition now row = competition_of now row.unit_price row.quality row.price_date row.profit

pub data RiskLevel : Type 0 where
  low medium high : RiskLevel

-- The texts of `opportunityRisk`, by what they say.
pub data RiskReason : Type 0 where
  purchase_near_limit purchase_half_used black_market_near_limit black_market_half_used : RiskReason
  caerleon_competes crossed_orders nothing_found : RiskReason

-- A part of the score, with its reason if there is one.
abbrev pub age_risk : ℕ → ℕ → RiskReason → RiskReason → ℕ × List RiskReason
age_risk age most near half =
    if leb (most * 3) (age * 4)
    then (2, near ∷ [])
    else if leb most (age * 2)
    then (1, half ∷ [])
    else (0, [])

abbrev pub flag_risk : Bool → RiskReason → ℕ × List RiskReason
flag_risk b reason = if b then (2, reason ∷ []) else (0, [])

-- `blackMarketSellPrice != nil && *blackMarketSellPrice > 0 && ... <= blackMarketBuyPrice`
abbrev pub is_crossed : Option ℤ → ℤ → Bool
is_crossed none buy = false
is_crossed (some sell) buy = lt (pos 0) sell && le sell buy

abbrev pub level_of : ℕ → RiskLevel
level_of score = if leb 4 score then high else if leb 2 score then medium else low

abbrev pub or_nothing : List RiskReason → List RiskReason
or_nothing [] = nothing_found ∷ []
or_nothing (r ∷ reasons) = r ∷ reasons

-- The four parts of the score.
unfoldable pub risk_score : Text → ℕ → ℕ → ℕ → ℕ → Option ℤ → ℤ → Competition → ℕ × List RiskReason
risk_score market purchase_age black_market_age most_city most_black_market sell buy competition =
    let one = age_risk purchase_age most_city purchase_near_limit purchase_half_used in
    let two =
      age_risk black_market_age most_black_market black_market_near_limit black_market_half_used in
    let three =
      flag_risk (not (text_eq market (lit "caerleon")) && competition.can_fill_profitably)
        caerleon_competes in
    let four = flag_risk (is_crossed sell buy) crossed_orders in
    (one.0 + two.0 + three.0 + four.0, one.1 ++ two.1 ++ three.1 ++ four.1)

-- `opportunityRisk`, at ages that are not negative.
unfoldable pub opportunity_risk :
    Text → ℕ → ℕ → ℕ → ℕ → Option ℤ → ℤ → Competition → RiskLevel × List RiskReason
unfolding risk_score
opportunity_risk market purchase_age black_market_age most_city most_black_market sell buy
      competition =
    let (score, reasons) =
      risk_score market purchase_age black_market_age most_city most_black_market sell buy
        competition in
    (level_of score, or_nothing reasons)

-- `OpportunityCoverage`, without the keys that it repeats.
pub record Coverage : Type 0 where
  pub black_market_rows : ℕ
  pub source_market_rows : ℕ
  pub latest_black_market_at : Option Time
  pub latest_source_market_at : Option Time

-- The texts of `opportunityWarnings`, by what they say.
pub data Warning : Type 0 where
  no_black_market_orders no_source_prices old_black_market old_sources no_matches more_pages :
      Warning

abbrev pub is_older : Time → Option Time → ℕ → Bool
is_older now none most = false
is_older now (some at) most = ltb most (age_minutes now at)

abbrev pub warn_if : Bool → Warning → List Warning
warn_if b w = if b then w ∷ [] else []

-- `opportunityWarnings`.
unfoldable pub opportunity_warnings : Coverage → ℕ → ℕ → ℕ → ℕ → ℕ → Time → List Warning
unfolding age_minutes
opportunity_warnings c returned total most_city most_black_market offset now =
    warn_if (c.black_market_rows == 0) no_black_market_orders
    ++ warn_if (c.source_market_rows == 0) no_source_prices
    ++ warn_if (is_older now c.latest_black_market_at most_black_market) old_black_market
    ++ warn_if (is_older now c.latest_source_market_at most_city) old_sources
    ++ warn_if (returned == 0 && ltb 0 c.black_market_rows && ltb 0 c.source_market_rows) no_matches
    ++ warn_if (ltb (offset + returned) total) more_pages

-- `opportunityID`.
unfoldable pub opportunity_id : Text → Text → ℤ → ℤ → Text
opportunity_id item market quality black_market_quality =
    item
    ++ b':' ∷ market
    ++ lit ":q"
    ++ format_int quality
    ++ lit ":bmq"
    ++ format_int black_market_quality

abbrev pub any_prefix : Text → List Text → Bool
any_prefix s [] = false
any_prefix s (p ∷ ps) = has_prefix s p || any_prefix s ps

unfoldable pub category_of : Text → Text
category_of body =
    if any_prefix body (lit "MAIN_" ∷ lit "2H_" ∷ [])
    then lit "weapon"
    else if any_prefix body (lit "HEAD_" ∷ lit "ARMOR_" ∷ lit "SHOES_" ∷ [])
    then lit "armor"
    else if has_prefix body (lit "OFF_")
    then lit "offhand"
    else if any_prefix body (lit "CAPE_" ∷ lit "BAG" ∷ [])
    then lit "accessory"
    else []

abbrev pub category_behind : Option Text → Text
category_behind none = []
category_behind (some body) = category_of body

module _ ⦃go : Platform⦄ where
  -- `opportunityCategory`; an empty text behind the first `_` has no category either.
  unfoldable pub opportunity_category : Text → Text
  unfolding category_of
  opportunity_category item = category_behind (after_first b'_' (to_upper item))

-- The tier of `opportunityTierAndEnchantment`, over the bytes of the identifier.
unfoldable pub tier_of : List ℕ → ℕ
tier_of [] = 0
tier_of (t ∷ []) = 0
tier_of (t ∷ d ∷ rest) = if t == b'T' && leb b'0' d && leb d b'9' then d - b'0' else 0

-- Its enchantment: the byte behind an `@` that is the last but one, and the last `@`.
unfoldable pub enchantment_of : List ℕ → ℕ
enchantment_of [] = 0
enchantment_of (a ∷ []) = 0
enchantment_of (a ∷ d ∷ []) = if a == b'@' && leb b'0' d && leb d b'4' then d - b'0' else 0
enchantment_of (a ∷ b ∷ c ∷ rest) = enchantment_of (b ∷ c ∷ rest)

unfoldable pub tier_and_enchantment : Text → ℕ × ℕ
unfolding tier_of enchantment_of
tier_and_enchantment item = (tier_of (utf8 item), enchantment_of (utf8 item))
