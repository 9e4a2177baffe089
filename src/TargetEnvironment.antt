-- ===== src/TargetEnvironment.antt =====
-- The server and the client of Target Environment/: what they share, and the parts.
pub mod TargetTable
pub mod Messages
pub mod Client
pub mod ComputeParams
pub mod Request
pub mod RequestMsg
pub mod Catalog
pub mod Server
pub mod Exchange
pub mod Satellites
mod Tests

-- `enum ErrorCode` of Target Environment/Shared/Errors.h.
pub data ErrorCode : Type 0 where
  ok : ErrorCode
  system_failure : ErrorCode
  config_failure : ErrorCode
  register_fail : ErrorCode
  request_fail : ErrorCode

-- How a call ends: with its code, with an exception that nobody caught, or the program by an assert.
pub data Ended : Type 0 where
  code : ErrorCode → Ended
  escapes : Ended
  aborts : Ended
