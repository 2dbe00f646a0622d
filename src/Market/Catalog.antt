-- ===== src/Market/Catalog.antt =====
-- internal/marketcatalog/catalog.go. The receiver is not nil: every construction in the program
-- passes `NewDefault()` or a catalog it has checked.
pub mod Locations
use albion_market_api.Prelude.{
  ◌≡◌, Bool, true, false, not, ◌&&◌, ◌||◌, Option, none, some, List, [], ◌∷◌, ◌++◌, if◌then◌else◌,
  Result, ok, err, ◌>>=◌,
}
use albion_market_api.Prelude.Int.{ℤ, pos}
use albion_market_api.Text.{Text, Platform, lit, text_lt, is_empty, trim_space, to_lower}
use albion_market_api.Seen.{contains, text_keys}
use albion_market_api.Maps.{lookup, put, location_keys}
use albion_market_api.Sort.{sort_stable}
use albion_market_api.Market.Domain.{
  MarketType, regular, black_market, MarketDefinition, QueryError, empty_market, unsupported_market,
  disabled_market,
}

-- `record`.
pub record Market : Type 0 where
  pub definition : MarketDefinition
  pub location_id : Option ℤ

pub record Catalog : Type 0 where
  pub markets : List Market
  pub by_key : List (Text × Market)
  pub by_location : List (ℤ × Text)

abbrev market : Text → Text → MarketType → Bool → Option ℤ → Market
market key name kind enabled location = record {
  definition = record { key = key; name = name; kind = kind; enabled = enabled };
  location_id = location;
}

-- The table in `NewDefault`.
abbrev pub default_markets : List Market
default_markets =
    market (lit "bridgewatch") (lit "Bridgewatch") regular true (some (pos 2004))
    ∷ market (lit "martlock") (lit "Martlock") regular true (some (pos 3008))
    ∷ market (lit "lymhurst") (lit "Lymhurst") regular true (some (pos 1002))
    ∷ market (lit "fort_sterling") (lit "Fort Sterling") regular true (some (pos 4002))
    ∷ market (lit "thetford") (lit "Thetford") regular true (some (pos 7))
    ∷ market (lit "caerleon") (lit "Caerleon") regular true (some (pos 3005))
    ∷ market (lit "brecilien") (lit "Brecilien") regular true (some (pos 5003))
    ∷ market (lit "black_market") (lit "Black Market") black_market false none
    ∷ []

abbrev put_location : Option ℤ → Text → List (ℤ × Text) → List (ℤ × Text)
put_location none key m = m
put_location (some id) key m = put id key m

-- The loop of `NewDefault`.
abbrev pub index_markets : Catalog → List Market → Catalog
index_markets c [] = c
index_markets c (m ∷ ms) =
    index_markets
      (record c {
        by_key = put m.definition.key m c.by_key;
        by_location = put_location m.location_id m.definition.key c.by_location;
      })
      ms

abbrev pub new_default : Catalog
new_default =
    index_markets (record { markets = default_markets; by_key = []; by_location = [] })
      default_markets

abbrev listed : Bool → List Market → List MarketDefinition
listed all [] = []
listed all (m ∷ ms) =
    let rest = listed all ms in
    if not all && not m.definition.enabled then rest else m.definition ∷ rest

-- `List`.
unfoldable pub list_markets : Catalog → Bool → List MarketDefinition
list_markets c all = sort_stable (λ a b. text_lt a.name b.name) (listed all c.markets)

-- `KeyForLocation`.
unfoldable pub key_for_location : Catalog → ℤ → Option Text
key_for_location c id = lookup id c.by_location

-- The variables of the loop of `ResolveEnabled`.
pub record Resolved : Type 0 where
  pub location_ids : List ℤ
  pub keys_by_location : List (ℤ × Text)
  pub seen : List Text

-- What the loop does with a market of the catalog.
unfoldable pub add_market : Resolved → Text → Option Market → Result QueryError Resolved
add_market r key none = err (unsupported_market key)
add_market r key (some m) =
    if not m.definition.enabled then err (disabled_market key) else elim m.location_id [
      | none ↦ err (disabled_market key)
      | some id ↦ ok (record {
        location_ids = r.location_ids ++ id ∷ [];
        keys_by_location = put id key r.keys_by_location;
        seen = key ∷ r.seen;
      })
    ]

module _ ⦃go : Platform⦄ where
  -- `NormalizeKey`.
  unfoldable pub normalize_key : Text → Text
  normalize_key value = to_lower (trim_space value)

  -- The body of the loop of `ResolveEnabled`.
  unfoldable pub resolve_key : Catalog → Resolved → Text → Result QueryError Resolved
  resolve_key c r raw =
      let key = normalize_key raw in
      if is_empty key
      then err empty_market
      else if contains key r.seen
      then ok r
      else add_market r key (lookup key c.by_key)

  abbrev pub resolve_keys : Catalog → Resolved → List Text → Result QueryError Resolved
  resolve_keys c r [] = ok r
  resolve_keys c r (raw ∷ keys) = resolve_key c r raw >>= λ next. resolve_keys c next keys

  -- `ResolveEnabled`: the location IDs and `keysByLocation`.
  unfoldable pub resolve_enabled :
      Catalog → List Text → Result QueryError (List ℤ × List (ℤ × Text))
  resolve_enabled c keys = do
    r ← resolve_keys c (record { location_ids = []; keys_by_location = []; seen = [] }) keys
    ok (r.location_ids, r.keys_by_location)
