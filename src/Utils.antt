-- ===== src/Utils.antt =====
-- The helpers of Utils/ and of Target Environment/SatelliteUtils/utils.cpp.
pub mod Dates
pub mod Log
pub mod GetValue
pub mod FormatString
mod Tests
