-- ===== src/Application.antt =====
-- src/application: what is sent, and when.
pub mod MessengerState
pub mod TransmissionScheduler
