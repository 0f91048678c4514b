-- ===== src/Examples.antt =====
-- Runs at concrete inputs: the matchmaking of two players, and the rules it goes by.
mod Data
mod Bookings
mod Rules
mod Plans
