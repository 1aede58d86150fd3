-- ===== src/Bytecode/Specializer.antt =====
-- src/lib/lttng-ust/lttng-bytecode-specialize.c: the pass that follows the validator, and replaces
-- instructions by those for the types that the values on the stack are known to have.
pub mod Data
pub mod Types
pub mod Lookup
pub mod Insn
pub mod Run
pub mod Moves
pub mod Keeps
pub mod Ends
pub mod Choices
pub mod Agree
pub mod Typed
pub mod Steps
pub mod Pushes
pub mod Leads
pub mod Single
pub mod Held
mod Tests
pub mod Area
