-- ===== src/Tests.antt =====
-- Concrete inputs, and the theorems at them.
pub mod Data
mod Traces
mod Stores
mod Requests
mod Readers
mod Servers
mod Clients
mod Pages
mod Queries
mod Orders
mod Routes
