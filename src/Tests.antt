-- ===== src/Tests.antt =====
-- The theorems at concrete inputs.
mod Measured
mod Listed
mod Overridden
mod Versions
mod Urls
mod Addresses
mod Devices
mod States
mod Upgrades
mod Images
mod Stores
mod Connections
mod Documents
mod Certificates
mod ExtraData
