-- ===== src/Bytecode/Validator.antt =====
-- src/lib/lttng-ust/lttng-bytecode-validator.c: whether a program is accepted. The types on the
-- validation stack are a list, its top first. The merge points stand in the hash table, a copy of
-- another library, of which the calls are a parameter.
pub mod Table
pub mod Context
pub mod Exec
pub mod Heights
pub mod Load
