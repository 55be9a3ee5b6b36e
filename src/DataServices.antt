-- ===== src/DataServices.antt =====
-- services/data_service_common.py: what the data services share.
pub mod Authorizer
pub mod Outbox
pub mod Events
pub mod Recorder
