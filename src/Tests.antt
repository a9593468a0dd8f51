-- ===== src/Tests.antt =====
-- Examples: the theorems at concrete states, and runs of the definitions.
mod Sample
mod Storing
mod Reading
mod Http
mod Clients
mod Tables
mod Sessions
