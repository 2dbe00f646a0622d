-- ===== src/Market.antt =====
-- The market prices and histories: internal/marketcatalog, internal/service and the records of
-- internal/domain.
pub mod Domain
pub mod Catalog
pub mod Prices
pub mod History
pub mod Ingest
pub mod Latest
pub mod Server
pub mod Store
pub mod Buckets
pub mod PriceSource
pub mod HistorySource
pub mod HistoryStore
