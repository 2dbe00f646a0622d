-- ===== src/BlackMarket/Economics.antt =====
-- internal/blackmarket/blackmarket.go: prices, products and the economics of an analysis. The
-- arithmetic of `float64` is an argument.
pub mod Exact
use albion_market_api.Prelude.{
  ℕ, Bool, true, false, not, ◌&&◌, ◌||◌, Option, none, some, ◌+◌, ◌-◌, ◌*◌, ◌/◌, ◌^◌, ltb, leb,
  ◌==◌, if◌then◌else◌,
}
use albion_market_api.Prelude.Int.{ℤ, pos, negsuc, pos_part}
use albion_market_api.Int64.{lt, le, add64, sub64, mul64, div64}
use albion_market_api.Text.{Text, lit}
use albion_market_api.Clock.{Time, hour, zero_time}

-- `float64`, as the sources use it, and the functions of `math` on it. `to_int` is `int64`.
pub record Floating : Type 1 where
  pub Float : Type 0
  pub of_int : ℤ → Float
  pub to_int : Float → ℤ
  pub literal : ℕ → Float
  pub times : Float → Float → Float
  pub divided : Float → Float → Float
  pub minus : Float → Float → Float
  pub round : Float → Float
  pub ceil : Float → Float
  pub is_nan : Float → Bool
  pub is_inf : Float → Bool
  pub less : Float → Float → Bool
  pub default_tax : Float

abbrev pub max_int64 : ℕ
max_int64 = 2 ^ 63 - 1

-- `multiply`: none where the source returns false.
unfoldable pub multiply : ℤ → ℤ → Option ℤ
multiply left right =
    if lt left (pos 0)
      || lt right (pos 0)
      || (lt (pos 0) left && lt (pos (max_int64 / pos_part left)) right)
    then none
    else some (mul64 left right)

-- `positive`.
unfoldable pub positive : Option ℤ → Option ℤ
positive none = none
positive (some value) = if le value (pos 0) then none else some value

pub data Freshness : Type 0 where
  missing fresh stale : Freshness

-- `freshness`, with a window of 24 hours.
unfoldable pub freshness : Time → Option Time → Freshness
freshness now none = missing
freshness now (some at) =
    if at == zero_time then missing else if leb now (at + 24 * hour) then fresh else stale

pub data SaleSource : Type 0 where
  manual black_market_order no_price : SaleSource

module _ (math : Floating) where
  pub record Totals : Type 0 where
    pub purchase_cost : ℤ
    pub gross_revenue : ℤ
    pub sales_tax : ℤ
    pub net_revenue : ℤ
    pub profit : ℤ
    pub profit_per_unit : ℤ
    pub margin_percent : math.Float
    pub return_on_cost_percent : math.Float
    pub break_even_unit_price : ℤ

  -- `Economics`; `totals` holds the fields that are set together with `Ready`.
  pub record Economics : Type 0 where
    pub quantity : ℤ
    pub purchase_unit_price : Option ℤ
    pub sale_unit_price : Option ℤ
    pub sale_price_source : SaleSource
    pub transport_cost : ℤ
    pub totals : Option Totals

  abbrev percent : ℤ → ℤ → math.Float
  percent part whole =
      math.times (math.divided (math.of_int part) (math.of_int whole)) (math.literal 100)

  -- What follows the two products. The quantity is positive; `int64` arithmetic wraps.
  unfoldable pub totals_of : ℕ → ℤ → ℤ → math.Float → ℤ → Totals
  totals_of quantity purchase_cost gross_revenue tax_rate transport_cost =
      let tax = math.to_int (math.round (math.times (math.of_int gross_revenue) tax_rate)) in
      let net = sub64 (sub64 gross_revenue tax) transport_cost in
      let profit = sub64 net purchase_cost in
      let cost = add64 purchase_cost transport_cost in
      record {
        purchase_cost = purchase_cost;
        gross_revenue = gross_revenue;
        sales_tax = tax;
        net_revenue = net;
        profit = profit;
        profit_per_unit = div64 profit quantity;
        margin_percent =
            if lt (pos 0) gross_revenue then percent profit gross_revenue else math.literal 0;
        return_on_cost_percent = if lt (pos 0) cost then percent profit cost else math.literal 0;
        break_even_unit_price = math.to_int (
            math.ceil (
              math.divided (math.divided (math.of_int cost) (math.of_int (pos quantity)))
                (math.minus (math.literal 1) tax_rate)));
      }

  abbrev pub totals_if : ℕ → Option ℤ → Option ℤ → math.Float → ℤ → Option Totals
  totals_if quantity none gross tax_rate transport = none
  totals_if quantity (some cost) none tax_rate transport = none
  totals_if quantity (some cost) (some gross) tax_rate transport =
      some (totals_of quantity cost gross tax_rate transport)

  abbrev pub product_of : Option ℤ → ℕ → Option ℤ
  product_of none quantity = none
  product_of (some price) quantity = multiply price (pos quantity)

  -- `calculateEconomics`: with no price, or a product that overflows, it is not ready.
  unfoldable pub calculate_economics :
      ℕ → Option ℤ → Option ℤ → SaleSource → math.Float → ℤ → Economics
  unfolding multiply totals_of
  calculate_economics quantity purchase sale source tax_rate transport = record {
    quantity = pos quantity;
    purchase_unit_price = purchase;
    sale_unit_price = sale;
    sale_price_source = source;
    transport_cost = transport;
    totals =
        totals_if quantity (product_of purchase quantity) (product_of sale quantity) tax_rate
          transport;
  }
