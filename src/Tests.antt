-- ===== src/Tests.antt =====
-- Concrete instances of the parameters, and the theorems applied to them. A measurement is a whole
-- number, or `none` for the value that is not a number.
mod Stores
mod Client
mod Codec
mod Senders
mod Phases
mod Rounds
mod Requests
mod Lifetimes
mod Current
mod Agreement
mod Listing
mod Running
mod Endings
mod Outages
mod Deliveries
mod Settings
mod Caching
mod Processors
