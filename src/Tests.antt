-- ===== src/Tests.antt =====
-- Runs of the definitions on small inputs.
mod Data
mod Automata
mod Mutators
mod Windows
mod Replays
mod Loops
mod Supervisors
mod Setups
mod Commands
mod Whole
mod Dumps
mod Closes
mod Copies
