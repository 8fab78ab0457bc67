-- ===== src/Access.antt =====
-- Who gets in: passcodes, one-time codes, second factors, sessions and rate limits.
pub mod Passcode
pub mod Otp
pub mod Throttler
pub mod TwoFactor
pub mod Sessions
