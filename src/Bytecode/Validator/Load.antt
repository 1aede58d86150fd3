-- ===== src/Bytecode/Validator/Load.antt =====
-- The pass before the specialization (`lttng_bytecode_validate_load`), and what both passes know of
-- an instruction's end.
use lttng_ust.Common.{
  ℕ, zero, suc, ◌+◌, ◌≤◌, ◌<◌, ◌≡◌, ◌≢◌, refl, sym, ap, ◌∙◌, ◌==◌, leb, ◌&&◌, if◌then◌else◌, arith,
  some, Bool, true, false, Bool-cases, inl, inr, length,
}
use lttng_ust.Bytecode.{Op, Ref, Width, op_at, size_of, number_at, with_op, with_op-true}
use lttng_ust.Bytecode.Validator.Context.{Program, overflow_of, validate_get_symbol}

-- `validate_load`: unsupported operations and specialized loads are errors.
unfoldable pub validate_load : Op → Bool
validate_load Op.unsupported = false
validate_load (Op.load_field_ref Ref.untyped) = true
validate_load (Op.load_field_ref _) = false
validate_load (Op.get_context_ref Ref.untyped) = true
validate_load (Op.get_context_ref _) = false
validate_load (Op.load_field_sized _) = false
validate_load _ = true

abbrev pub load_insn : Program → ℕ → (ℕ → Bool) → Op → Bool
load_insn prog pc rest op =
    overflow_of prog pc op && (validate_load op && rest (pc + size_of prog.code pc op))

-- The loop, on fuel.
unfoldable pub validate_load_from : ℕ → Program → ℕ → Bool
validate_load_from zero prog pc = false
validate_load_from (suc f) prog pc =
    let rest = validate_load_from f prog in
    if leb (length prog.code) pc
    then true
    else with_op (op_at prog.code pc) (load_insn prog pc rest)

-- True is the code's 0; a program without instructions is an error.
unfoldable pub lttng_bytecode_validate_load : Program → Bool
lttng_bytecode_validate_load prog =
    if length prog.code == 0 then false else validate_load_from (suc (length prog.code)) prog 0

-- What the specialization may see: no arithmetic without support, and no load of a kind that only the
-- specialization, or the linking before it, writes.
pub record IsGeneral (op : Op) : Type 0 where
  pub supported : op ≢ Op.unsupported
  pub not_sized : (w : Width) → op ≢ Op.load_field_sized w
  pub field_untyped : (r : Ref) → op ≡ Op.load_field_ref r → r ≡ Ref.untyped
  pub context_untyped : (r : Ref) → op ≡ Op.get_context_ref r → r ≡ Ref.untyped

validate_load-field_ref : (r : Ref) → validate_load (Op.load_field_ref r) ≡ true → r ≡ Ref.untyped
unfolding validate_load
validate_load-field_ref r e = ground arith

validate_load-context_ref :
    (r : Ref) → validate_load (Op.get_context_ref r) ≡ true → r ≡ Ref.untyped
unfolding validate_load
validate_load-context_ref r e = ground arith

validate_load-unsupported : validate_load Op.unsupported ≢ true
unfolding validate_load
validate_load-unsupported e = ground arith

validate_load-sized : (w : Width) → validate_load (Op.load_field_sized w) ≢ true
unfolding validate_load
validate_load-sized w e = ground arith

validate_load-IsGeneral : (op : Op) → validate_load op ≡ true → IsGeneral op
validate_load-IsGeneral op e = record {
  supported = λ is. validate_load-unsupported (ap validate_load (sym is) ∙ e);
  not_sized = λ w is. validate_load-sized w (ap validate_load (sym is) ∙ e);
  field_untyped = λ r is. validate_load-field_ref r (ap validate_load (sym is) ∙ e);
  context_untyped = λ r is. validate_load-context_ref r (ap validate_load (sym is) ∙ e);
}

-- From an offset on, the code is whole instructions that the specialization may see.
pub data Splits (prog : Program) : ℕ → Type 0 where
  ended : Splits prog (length prog.code)
  insn :
      {pc : ℕ} (op : Op)
      → op_at prog.code pc ≡ some op
      → IsGeneral op
      → pc + size_of prog.code pc op ≤ length prog.code
      → Splits prog (pc + size_of prog.code pc op)
      → Splits prog pc

pub and-true : (a b : Bool) → a && b ≡ true → (a ≡ true) × (b ≡ true)
and-true true b e = (refl, e)
and-true false b e = ground arith

-- An instruction that passes the test for the code's end does not go past it.
pub overflow_of-le :
    (prog : Program) (pc : ℕ) (op : Op)
    → overflow_of prog pc op ≡ true
    → pc + size_of prog.code pc op ≤ length prog.code
unfolding overflow_of size_of
overflow_of-le prog pc Op.get_symbol e =
    ground
      (arith, (and-true _ (validate_get_symbol prog.symbols (number_at 2 prog.code (pc + 1))) e).0)
overflow_of-le prog pc Op.load_string e =
    ground (arith, (and-true (leb (pc + 1) (length prog.code)) _ e))
overflow_of-le prog pc Op.load_star_glob_string e =
    ground (arith, (and-true (leb (pc + 1) (length prog.code)) _ e))
overflow_of-le prog pc op e = ground arith

validate_load_from-Splits :
    (f : ℕ) (prog : Program) (pc : ℕ)
    → pc ≤ length prog.code
    → validate_load_from f prog pc ≡ true
    → Splits prog pc
unfolding validate_load_from
validate_load_from-Splits zero prog pc le e = ground arith
validate_load_from-Splits (suc f) prog pc le e = elim (Bool-cases (leb (length prog.code) pc)) [
  | inl end ↦ let at : pc ≡ length prog.code = ground (arith, end) in rw at ended
  | inr more ↦
      let (op, found, e') =
        with_op-true (op_at prog.code pc) (load_insn prog pc (validate_load_from f prog))
          (rw more at e) in
      let (fits, e'') = and-true (overflow_of prog pc op) _ e' in
      let (allowed, rest) = and-true (validate_load op) _ e'' in
      let end = overflow_of-le prog pc op fits in
      insn op found (validate_load-IsGeneral op allowed) end
        (validate_load_from-Splits f prog _ end rest)
]

-- A program that passes is not empty, and from its start on it is whole instructions, each of them
-- known and inside the code, up to its end: no arithmetic without support, no sized load of a field,
-- and no reference to a field or a context with a type.
pub validate_load-Splits :
    (prog : Program)
    → lttng_bytecode_validate_load prog ≡ true
    → (0 < length prog.code) × Splits prog 0
unfolding lttng_bytecode_validate_load
validate_load-Splits prog e = elim (Bool-cases (length prog.code == 0)) [
  | inl empty ↦ absurd (cc (rw empty at e))
  | inr some_code ↦ (
    ground (arith, some_code),
    validate_load_from-Splits (suc (length prog.code)) prog 0 (omega arith) (rw some_code at e),
  )
]
