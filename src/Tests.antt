-- ===== src/Tests.antt =====
-- Tests of the definitions, and the properties at concrete inputs.
mod Fixtures
mod Sessions
mod Saves
mod Memory
mod Cookies
mod Sql
mod Backend
mod Mongo
mod Redis
mod Contracts
mod Progress
mod Diagnostics
