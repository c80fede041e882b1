-- ===== src/Examples.antt =====
-- The theorems at concrete inputs: permissions, roles and machines of a small workshop.
mod Fixtures
mod Permissions
mod Roles
mod Varint
mod Resources
mod Lightproc
mod Search
mod Accounts
mod Cards
mod Fabfire
mod Modules
mod Executor
mod Workers
mod Layouts
mod Databases
mod Groups
mod Actors
