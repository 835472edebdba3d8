-- ===== src/Examples.antt =====
-- Concrete runs of the development: small instances of the crates and services that the gateway
-- calls, and one application of each theorem to concrete inputs.
mod Crates
mod Circuits
mod Configs
mod Documents
mod Limits
mod Tokens
mod Registry
mod Scene
mod Requests
mod Boot
mod Journeys
mod Flights
mod Outages
mod App
mod Stubs
