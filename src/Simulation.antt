-- ===== src/Simulation.antt =====
-- app/map.c: the process that owns the map. Its parts are the unloading of planes, the choice of
-- destinations and the turns.
pub mod Unload
pub mod Receive
pub mod Status
pub mod Destinations
pub mod Offer
pub mod Effects
pub mod Turn
