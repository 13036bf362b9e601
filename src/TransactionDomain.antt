-- ===== src/TransactionDomain.antt =====
-- The canonical BUY and SELL transactions (portfolio_common/transaction_domain): their rules and the
-- metadata of a SELL.
pub mod Validation
pub mod Linkage
pub mod Rules
pub mod Metadata
mod Tests
