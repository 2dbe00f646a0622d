-- ===== src/Billing.antt =====
-- internal/billing: the webhook queue and its worker, and what the events do to subscriptions.
pub mod Queue
pub mod Retry
pub mod Webhook
pub mod Access
pub mod Subscriptions
pub mod Handlers
pub mod Processing
