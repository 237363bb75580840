-- ===== src/Notify.antt =====
-- Notifications: the rules for events (platform/fmp/services/notifications/rules.py), the delivery of codes
-- and the SMPP transmitter (platform/fmp/services/notifications/dispatcher.py).
pub mod Rules
pub mod Scope
pub mod Smpp
pub mod Dispatcher
mod Tests
