-- ===== src/Service.antt =====
-- The service side, src/service: what a service declares, how it admits a caller, how it runs a method,
-- and the sessions and tokens of the calling side.
pub mod Reply
pub mod Schema
pub mod Access
pub mod Handler
pub mod Shell
pub mod Declared
pub mod Definition
pub mod Published
pub mod Stream
pub mod Session
