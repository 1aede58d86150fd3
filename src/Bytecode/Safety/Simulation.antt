-- ===== src/Bytecode/Safety/Simulation.antt =====
-- The run of a program that the validator accepts.
use lttng_ust.Common.{
  ℕ, zero, suc, ◌+◌, ◌≤◌, ◌≡◌, ◌==◌, ◌⊎◌, inl, inr, refl, arith, some, Bool, true, List, [], length,
}
use lttng_ust.Bytecode.{Op, EntryType, op_at, with_op-true, size_of}
use lttng_ust.Bytecode.Validator.Table.{Table, IsTable}
use lttng_ust.Bytecode.Validator.Context.{Program, bytecode_validate_overflow}
use lttng_ust.Bytecode.Validator.Exec.{
  Exec, failed, stop, next, branch, exec_insn, validate_instruction_all_contexts, after_exec,
  validate_insn, validate_from, lttng_bytecode_validate,
}
use lttng_ust.Bytecode.Validator.Heights.{Fits, exec_insn-Fits}
use lttng_ust.Bytecode.Interpreter.Machine.{Machine, Env, Outcome, running, start}
use lttng_ust.Bytecode.Interpreter.Run.{exec, run, lttng_bytecode_interpret}
use lttng_ust.Bytecode.Safety.Stack.{Post-if, fails, Holds}
use lttng_ust.Bytecode.Safety.Agree.{Agrees, exec-Agrees}
use lttng_ust.Bytecode.Safety.Points.{Waits, contexts-Waits, add_check-Waits}
use lttng_ust.Bytecode.Safety.Steps.{
  IsSafe, with_points-true, if_not-true, overflow-le, run-IsSafe, run-Post, step-op, start-Holds,
}

module _ {T : Type 0} (h : Table T) (zmalloc : ℕ → Bool) (law : IsTable h) where
  module _ (env : Env) (capture : Bool) (n len : ℕ) (room : len + 2 ≤ n) (prog : Program) where
    -- The machine is at the instruction, or waits for a merge point.
    abbrev Ready : ℕ → List EntryType → T → ℕ → ℕ → Machine → Type 0
    Ready pc stack points k q m = Holds n k m × ((q ≡ pc) × (length stack ≡ k) ⊎ Waits h points q k)

    abbrev Accepted : ℕ → ℕ → List EntryType → T → Type 0
    Accepted f pc stack points = validate_from h zmalloc f len prog pc stack points ≡ true

    -- From a place that the validator has accepted with fuel `f`, a run of as many instructions ends.
    abbrev Runs : ℕ → Type 0
    Runs f =
        (g pc : ℕ) (stack : List EntryType) (points : T) (k q : ℕ) (m : Machine)
        → f ≤ g
        → length stack ≤ len
        → Accepted f pc stack points
        → Ready pc stack points k q m
        → IsSafe (run g env capture n prog.code (running q m))

    -- The machine waits: the instruction is not for it.
    waiting :
        (f : ℕ)
        → Runs f
        → (g pc : ℕ) (op : Op) (stack : List EntryType) (points : T) (k q : ℕ) (m : Machine)
          (e : Exec)
        → f ≤ g
        → Fits len stack e
        → after_exec h zmalloc prog pc op stack points (validate_from h zmalloc f len prog) e ≡ true
        → length stack ≤ len
        → Holds n k m
        → Waits h points q k
        → IsSafe (run g env capture n prog.code (running q m))
    unfolding after_exec
    waiting f ih g pc op stack points k q m failed le fits a height at w = ground arith
    waiting f ih g pc op stack points k q m stop le fits a height at w =
        absurd (cc (w.found, law.count_none points (ground arith) q))
    waiting f ih g pc op stack points k q m (next s) le fits a height at w =
        ih g _ s points k q m le fits a (at, inr w)
    waiting f ih g pc op stack points k q m (branch s) le fits a height at w =
        let (after, added, a') = with_points-true _ _ a in
        ih g _ s after k q m le (omega (arith, fits)) a'
          (at, inr ((add_check-Waits h law zmalloc _ stack points added).1 q k w))

    -- The machine is at the instruction.
    here :
        (f : ℕ)
        → Runs f
        → (g pc : ℕ) (op : Op) (stack : List EntryType) (points : T) (o : Outcome) (e : Exec)
        → f ≤ g
        → Fits len stack e
        → after_exec h zmalloc prog pc op stack points (validate_from h zmalloc f len prog) e ≡ true
        → length stack ≤ len
        → Agrees n prog.code pc (size_of prog.code pc op) e o
        → IsSafe (run g env capture n prog.code o)
    unfolding after_exec
    here f ih g pc op stack points o failed le fits a height at = ground arith
    here f ih g pc op stack points o stop le fits a height at =
        run-IsSafe env capture n prog.code g o at
    here f ih g pc op stack points o (next s) le fits a height at =
        run-Post env capture n prog.code g o
          (λ q m p. ih g _ s points _ q m le fits a (p.1, inl (p.0, refl))) at
    here f ih g pc op stack points o (branch s) le fits a height at =
        let (after, added, a') = with_points-true _ _ a in
        let target = (add_check-Waits h law zmalloc _ stack points added).0 in
        run-Post env capture n prog.code g o
          (λ q m p. elim p [
            | inl (at', holds) ↦
                ih g _ s after (length s) q m le (omega (arith, fits)) a' (holds, inl (at', refl))
            | inr (at', holds) ↦
                ih g _ s after (suc (length s)) q m le (omega (arith, fits)) a'
                  (holds, inr (rw (at', ← fits) target))
          ])
          at

    at_instruction :
        (f : ℕ)
        → Runs f
        → (op : Op) (g pc : ℕ) (stack : List EntryType) (points : T) (m : Machine) → suc f ≤ g
        → length stack ≤ len
        → op_at prog.code pc ≡ some op
        → pc + size_of prog.code pc op ≤ length prog.code
        → after_exec h zmalloc prog pc op stack points
            (validate_from h zmalloc f len prog)
            (exec_insn len stack op)
          ≡ true
        → Holds n (length stack) m
        → IsSafe (run g env capture n prog.code (running pc m))
    unfolding run
    at_instruction f ih op zero pc stack points m le height e end a at = elim le [ ]
    at_instruction f ih op (suc g) pc stack points m le height e end a at =
        rw (step-op env capture n prog.code pc m e end) (
          here f ih g pc op stack points (exec env capture n prog.code pc m op)
            (exec_insn len stack op) (omega arith) (exec_insn-Fits len stack height op) a height
            (exec-Agrees env capture n len room prog.code pc m stack at height op))

    -- One instruction of both.
    instruction :
        (f : ℕ)
        → Runs f
        → (op : Op) (g pc : ℕ) (stack : List EntryType) (points : T) (k q : ℕ) (m : Machine)
        → suc f ≤ g
        → length stack ≤ len
        → op_at prog.code pc ≡ some op
        → validate_insn h zmalloc len prog pc stack points (validate_from h zmalloc f len prog) op
          ≡ true
        → Ready pc stack points k q m
        → IsSafe (run g env capture n prog.code (running q m))
    unfolding validate_insn
    instruction f ih op g pc stack points k q m le height e a ready =
        let (inside, v) = if_not-true (bytecode_validate_overflow prog pc) _ a in
        let end = overflow-le prog pc e inside in
        let (after, checked, a') =
          with_points-true (validate_instruction_all_contexts h zmalloc prog pc stack op points)
            (λ t.
              after_exec h zmalloc prog pc op stack t (validate_from h zmalloc f len prog)
                (exec_insn len stack op))
            v in
        let fits = exec_insn-Fits len stack height op in
        let at_pc : Holds n (length stack) m
            → IsSafe (run g env capture n prog.code (running pc m)) =
          λ at. at_instruction f ih op g pc stack after m le height e end a' at in
        elim ready.1 [
          | inl (same_pc, same) ↦ rw (same_pc) (at_pc (rw same ready.0))
          | inr w ↦ elim (contexts-Waits h law zmalloc prog pc stack op points q k checked w) [
            | inl (same_pc, same) ↦ rw (same_pc) (at_pc (rw same ready.0))
            | inr w' ↦
                waiting f ih g pc op stack after k q m (exec_insn len stack op) (omega arith) fits
                  a' height ready.0 w'
          ]
        ]

    all_run : (f : ℕ) → Runs f
    unfolding validate_from
    all_run zero g pc stack points k q m le height a ready = ground arith
    all_run (suc f) g pc stack points k q m le height a ready =
        let (op, e, a') = with_op-true _ _ a in
        instruction f (all_run f) op g pc stack points k q m le height e a' ready

    -- `lttng_bytecode_validate` accepts no program that runs out of the stack, or never ends.
    pub validate-IsSafe :
        lttng_bytecode_validate h zmalloc len prog ≡ true
        → IsSafe (lttng_bytecode_interpret env capture n prog.code)
    unfolding lttng_bytecode_validate lttng_bytecode_interpret
    validate-IsSafe e = Post-if (length prog.code == 0) fails (
        all_run (length prog.code) (length prog.code) 0 [] h.new 0 0 (start n) (omega arith)
          (omega arith) e (start-Holds n, inl (refl, refl)))
