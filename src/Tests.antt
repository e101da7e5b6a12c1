-- ===== src/Tests.antt =====
-- The theorems at concrete inputs.
mod Sample
mod Caches
mod Flushes
mod Hubs
mod Gateways
mod Dispatches
mod Chats
mod Ranks
mod Nodes
mod Telemetries
mod Databases
mod Consoles
mod Restores
mod Broadcasts
mod Reports
mod Starts
mod HubWebs
mod Scrapes
mod Tunnels
mod Runners
