-- ===== src/PalworldSettings.antt =====
-- app/palworld_settings: the game server's settings file.
pub mod Text
pub mod Ini
pub mod RoundTrip
pub mod Strip
pub mod Edit
pub mod Values
pub mod Service
pub mod Save
pub mod Storage
pub mod Saving
