-- ===== src/Bytecode/Safety.antt =====
-- What the validator promises the interpreter.
pub mod Stack
pub mod Trip
pub mod Loads
pub mod Points
pub mod Ops
pub mod Agree
pub mod Steps
pub mod Simulation
