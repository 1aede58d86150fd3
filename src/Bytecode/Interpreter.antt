-- ===== src/Bytecode/Interpreter.antt =====
-- src/lib/lttng-ust/lttng-bytecode-interpreter.c: the run of a program (`lttng_bytecode_interpret`).
-- The two top values that are integers are kept in the registers `ax` and `bx`, with their types;
-- doubles, strings and pointers are read from the stack's memory. Integers and doubles are 64-bit
-- words. An entry's union is two words: the first is the integer, the double, the string's address
-- or a pointer's `type`, the second the string's length or a pointer's address.
pub mod Strings
pub mod Machine
pub mod Compare
pub mod Arith
pub mod Load
pub mod Run
pub mod Strcmp
