-- ===== src/Base.antt =====
-- What every part of the protocol stands on: the error type of antarc-protocol/src/errors.rs,
-- results that may also be a panic, the build that the code runs under, and machine integers.
pub mod Errors
pub mod Results
pub mod Words
