-- ===== src/Bytecode/Validator/Heights.antt =====
-- How high the validation stack is after an instruction, and what merge points say of its height.
use lttng_ust.Common.{
  ℕ, suc, ◌≤◌, ◌≡◌, ◌&&◌, leb, if◌then◌else◌, refl, ap, arith, Option, some, none, Bool, true,
  false, List, [], ◌∷◌, length,
}
use lttng_ust.Bytecode.{
  Op, EntryType, s64, u64, double, string, star_glob_string, unknown, ptr, Ref,
}
use lttng_ust.Bytecode.Validator.Exec.{
  Exec, failed, stop, next, branch, push, replaced, replace, combine, not_ptr, exec_logical,
  exec_return, exec_return_s64, end_with, exec_insn, merge_points_compare,
}

-- The next stack fits; a branch pops one entry.
abbrev pub Fits : ℕ → List EntryType → Exec → Type 0
Fits len stack failed = Unit
Fits len stack stop = Unit
Fits len stack (next s) = length s ≤ len
Fits len stack (branch s) = length stack ≡ suc (length s)

module _ (len : ℕ) (stack : List EntryType) where
  replaced-Fits :
      (s : List EntryType) (t : Option EntryType)
      → suc (length s) ≤ len
      → Fits len stack (replaced s t)
  replaced-Fits s none le = tt
  replaced-Fits s (some b) le = le

  if-Fits :
      (b : Bool) (e : Exec)
      → (b ≡ false → Fits len stack e)
      → Fits len stack (if b then failed else e)
  if-Fits true e p = tt
  if-Fits false e p = p refl

push-Fits : (len : ℕ) (t : EntryType) (stack : List EntryType) → Fits len stack (push len t stack)
push-Fits len t stack =
    if-Fits len stack (leb len (length stack)) (next (t ∷ stack)) (λ e. ground arith)

replace-Fits :
    (len : ℕ) (f : EntryType → Option EntryType) (stack : List EntryType)
    → length stack ≤ len
    → Fits len stack (replace f stack)
replace-Fits len f [] le = tt
replace-Fits len f (a ∷ stack) le = replaced-Fits len (a ∷ stack) stack (f a) le

combine-Fits :
    (len : ℕ) (t : EntryType) (stack : List EntryType)
    → length stack ≤ len
    → Fits len stack (combine t stack)
combine-Fits len t [] le = tt
combine-Fits len t (a ∷ []) le = tt
combine-Fits len t (a ∷ b ∷ s) le = replaced-Fits len (a ∷ b ∷ s) s (not_ptr t b) (omega arith)

logical-Fits : (len : ℕ) (stack : List EntryType) → Fits len stack (exec_logical stack)
logical-Fits len [] = tt
logical-Fits len (s64 ∷ s) = refl
logical-Fits len (u64 ∷ s) = refl
logical-Fits len (double ∷ s) = tt
logical-Fits len (string ∷ s) = tt
logical-Fits len (star_glob_string ∷ s) = tt
logical-Fits len (unknown ∷ s) = tt
logical-Fits len (ptr ∷ s) = tt

return-Fits : (len : ℕ) (stack : List EntryType) → Fits len stack (end_with exec_return stack)
return-Fits len [] = tt
return-Fits len (s64 ∷ s) = tt
return-Fits len (u64 ∷ s) = tt
return-Fits len (double ∷ s) = tt
return-Fits len (string ∷ s) = tt
return-Fits len (star_glob_string ∷ s) = tt
return-Fits len (unknown ∷ s) = tt
return-Fits len (ptr ∷ s) = tt

return_s64-Fits :
    (len : ℕ) (stack : List EntryType) → Fits len stack (end_with exec_return_s64 stack)
return_s64-Fits len [] = tt
return_s64-Fits len (s64 ∷ s) = tt
return_s64-Fits len (u64 ∷ s) = tt
return_s64-Fits len (double ∷ s) = tt
return_s64-Fits len (string ∷ s) = tt
return_s64-Fits len (star_glob_string ∷ s) = tt
return_s64-Fits len (unknown ∷ s) = tt
return_s64-Fits len (ptr ∷ s) = tt

field_ref-Fits :
    (len : ℕ) (stack : List EntryType) (r : Ref)
    → Fits len stack (exec_insn len stack (Op.load_field_ref r))
unfolding exec_insn
field_ref-Fits len stack Ref.untyped = tt
field_ref-Fits len stack Ref.string = push-Fits len string stack
field_ref-Fits len stack Ref.sequence = push-Fits len string stack
field_ref-Fits len stack Ref.s64 = push-Fits len s64 stack
field_ref-Fits len stack Ref.double = push-Fits len double stack

-- On a stack that fits, an instruction leaves one that fits, and a branch pops one entry.
pub exec_insn-Fits :
    (len : ℕ) (stack : List EntryType)
    → length stack ≤ len
    → (op : Op) → Fits len stack (exec_insn len stack op)
unfolding exec_insn
exec_insn-Fits len stack le Op.return = return-Fits len stack
exec_insn-Fits len stack le Op.return_s64 = return_s64-Fits len stack
exec_insn-Fits len stack le Op.unsupported = tt
exec_insn-Fits len stack le (Op.compare c k) = combine-Fits len s64 stack le
exec_insn-Fits len stack le (Op.bitwise o) = combine-Fits len u64 stack le
exec_insn-Fits len stack le (Op.unary o k) = replace-Fits len _ stack le
exec_insn-Fits len stack le Op.unary_bit_not = replace-Fits len _ stack le
exec_insn-Fits len stack le Op.logical_and = logical-Fits len stack
exec_insn-Fits len stack le Op.logical_or = logical-Fits len stack
exec_insn-Fits len stack le (Op.load_field_ref r) = field_ref-Fits len stack r
exec_insn-Fits len stack le (Op.get_context_ref r) = push-Fits len _ stack
exec_insn-Fits len stack le Op.load_string = push-Fits len _ stack
exec_insn-Fits len stack le Op.load_star_glob_string = push-Fits len _ stack
exec_insn-Fits len stack le Op.load_s64 = push-Fits len _ stack
exec_insn-Fits len stack le Op.load_double = push-Fits len _ stack
exec_insn-Fits len stack le Op.cast_to_s64 = replace-Fits len _ stack le
exec_insn-Fits len stack le Op.cast_double_to_s64 = replace-Fits len _ stack le
exec_insn-Fits len stack le Op.cast_nop = le
exec_insn-Fits len stack le (Op.get_root r) = push-Fits len _ stack
exec_insn-Fits len stack le Op.get_symbol = replace-Fits len _ stack le
exec_insn-Fits len stack le Op.get_symbol_field = replace-Fits len _ stack le
exec_insn-Fits len stack le Op.get_index_u16 = replace-Fits len _ stack le
exec_insn-Fits len stack le Op.get_index_u64 = replace-Fits len _ stack le
exec_insn-Fits len stack le Op.load_field = replace-Fits len _ stack le
exec_insn-Fits len stack le (Op.load_field_sized w) = replace-Fits len _ stack le

and_right : (a : Bool) {b : Bool} → a && b ≡ true → b ≡ true
and_right true e = e
and_right false e = ground arith

-- Stacks that a merge point takes for the same have the same height.
pub merge_points_compare-length :
    (s t : List EntryType) → merge_points_compare s t ≡ true → length s ≡ length t
unfolding merge_points_compare
merge_points_compare-length [] [] e = refl
merge_points_compare-length [] (b ∷ t) e = ground arith
merge_points_compare-length (a ∷ s) [] e = ground arith
merge_points_compare-length (a ∷ s) (b ∷ t) e =
    ap suc (merge_points_compare-length s t (and_right _ e))
