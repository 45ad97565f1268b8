-- ===== src/Tests.antt =====
-- The properties applied to concrete data, one file per part.
mod Data
mod Agreement
mod Messages
mod Receipts
mod Confirms
mod Fragments
mod Timers
mod Rendering
mod Sessions
mod Keys
mod Contentions
mod Machines
mod Users
mod Handshake
