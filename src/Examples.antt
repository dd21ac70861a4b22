-- ===== src/Examples.antt =====
-- Concrete inputs to the theorems, with toy versions of the packages that are parameters.
pub mod Toys
pub mod Sessions
pub mod Tables
pub mod Datagrams
pub mod Server
