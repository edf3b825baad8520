-- ===== src/Tests.antt =====
-- Concrete settings, and the theorems applied to them.
mod Agents
mod Services
mod Commands
mod Setting
mod Migrations
mod Clients
mod Disks
mod Rounds
mod Nodes
