-- ===== src/Auth/Examples.antt =====
-- A deployment of the sign-in at concrete values, and the theorems of lib/auth.ts and its parts
-- there.
mod Encoding
mod Setup
mod Runs
mod Flows
mod Visits
