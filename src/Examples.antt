-- ===== src/Examples.antt =====
-- The theorems of the other modules at concrete inputs.
mod Samples
mod Client
mod Master
mod Slaves
mod Documents
mod Start
mod Serial
mod Line
mod Net
mod Command
mod Endpoints
mod Written
mod Overlaps
