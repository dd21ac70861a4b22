-- ===== src/Kdc.antt =====
-- _kdc_object.py: the keys of peers, and the transport sessions that are kept for a resumption.
pub mod Types
pub mod Mirror
pub mod Inactive
pub mod Keys
pub mod Request
