-- ===== src/Outbox.antt =====
-- The transactional outbox (portfolio_common/outbox_repository.py, outbox_dispatcher.py): events are
-- stored with the change that causes them, and published later.
pub mod Repository
pub mod Dispatcher
pub mod Delivery
mod Tests
