-- ===== src/BlackMarket.antt =====
-- internal/blackmarket: the analysis of one item (blackmarket.go), and the filters and the assessment
-- of opportunities (opportunities.go, opportunities_helpers.go).
pub mod Economics
pub mod Filters
pub mod Risk
