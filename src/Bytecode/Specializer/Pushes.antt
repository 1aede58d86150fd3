-- ===== src/Bytecode/Specializer/Pushes.antt =====
-- The pushes of the interpreter, on a stack of which the static types are known.
use lttng_ust.Common.{ℕ, suc, ◌+◌, ◌≡◌, refl, arith, ◌==◌, List, ◌∷◌, length}
use lttng_ust.Bytecode.{Ref, Root, EntryType, s64, double, string, unknown, ptr}
use lttng_ust.Bytecode.Interpreter.Machine.{
  Literal, Entry, Machine, Env, Selected, none_selected, s64_selected, double_selected,
  string_selected, other_selected, estack_ax, set_ax,
}
use lttng_ust.Bytecode.Interpreter.Load.{
  push_string, push_s64, push_double, push_nothing, field_ref_op, context_ref_op, selected_op,
  root_op,
}
use lttng_ust.Bytecode.Safety.Stack.{Holds, Holds-registers, Holds-memory}
use lttng_ust.Bytecode.Specializer.Types.{VEntry}
use lttng_ust.Bytecode.Specializer.Insn.{typed}
use lttng_ust.Bytecode.Specializer.Run.{ref_type}
use lttng_ust.Bytecode.Specializer.Choices.{Covers, any, s64_s64, double_double, string_string}
use lttng_ust.Bytecode.Specializer.Typed.{
  Under, Under-set_ax, Under-registers, IsTyped, OnRun, OnRun-bind, OnRun-if, Typed-push,
}
use lttng_ust.Bytecode.Specializer.Steps.{Next}

-- Pushes. The entry's type is as the load says.
module _ (env : Env) (n pc : ℕ) (m : Machine) (live : List VEntry) (t : IsTyped n live m) where
  pub push_s64-Next :
      (y : VEntry) (v q : ℕ) → Covers y.type s64 → OnRun (Next n q (y ∷ live)) (push_s64 n v q m)
  push_s64-Next y v q c =
      Typed-push live m t _ _
        (λ m' at u. (refl, (Holds-registers m' at v s64, (c, Under-registers live m' v s64 u))))

  -- A push that goes to memory too.
  in_memory :
      (y : VEntry) (d : EntryType) (q : ℕ) (m' : Machine) (z : Entry)
      → Covers y.type d
      → Holds n (suc (length live)) m'
      → Under live m'
      → Next n q (y ∷ live) q (record (set_ax z m') { ax_t = d })
  in_memory y d q m' z c at u = (
    refl,
    (
      Holds-memory m' at m'.ax d z,
      (
        c,
        Under-registers live (set_ax z m') m'.ax d
            (Under-set_ax live m' z (omega (arith, at.top)) u),
      ),
    ),
  )

  pub push_double-Next :
      (y : VEntry) (v q : ℕ)
      → Covers y.type double
      → OnRun (Next n q (y ∷ live)) (push_double n v q m)
  push_double-Next y v q c =
      Typed-push live m t _ _
        (λ m' at u. OnRun-bind _ (estack_ax m') _ (λ x _. in_memory y double q m' _ c at u))

  pub push_string-Next :
      (y : VEntry) (d : EntryType) (l : Literal) (a len q : ℕ)
      → Covers y.type d
      → OnRun (Next n q (y ∷ live)) (push_string n d l a len q m)
  push_string-Next y d l a len q c = Typed-push live m t _ _ (λ m' at u.
      OnRun-bind _ (estack_ax m') _
        (λ x _. OnRun-if _ (a == 0) _ _ (λ _. tt) (λ _. in_memory y d q m' _ c at u)))

  push_nothing-Next : (y : VEntry) (q : ℕ) → OnRun (Next n q (y ∷ live)) (push_nothing n m)
  push_nothing-Next y q = Typed-push live m t _ _ (λ m' at u. tt)

  pub root_op-Next :
      (y : VEntry) (r : Root)
      → Covers y.type ptr
      → OnRun (Next n (pc + 1) (y ∷ live)) (root_op env n r pc m)
  unfolding root_op
  root_op-Next y r c =
      Typed-push live m t _ _
        (λ m' at u. OnRun-bind _ (estack_ax m') _ (λ x _. in_memory y ptr (pc + 1) m' _ c at u))

  selected_op-Next :
      (y : VEntry) (o q : ℕ) (k : Selected)
      → y.type ≡ unknown
      → OnRun (Next n q (y ∷ live)) (selected_op env n o q m k)
  selected_op-Next y o q none_selected e = push_nothing-Next y q
  selected_op-Next y o q other_selected e = push_nothing-Next y q
  selected_op-Next y o q s64_selected e = push_s64-Next y _ q (rw e any)
  selected_op-Next y o q double_selected e = push_double-Next y _ q (rw e any)
  selected_op-Next y o q string_selected e = push_string-Next y _ _ _ _ q (rw e any)

  pub field_ref_op-Next :
      (x : VEntry) (r : Ref) (o q : ℕ)
      → OnRun (Next n q (typed (ref_type r) x ∷ live)) (field_ref_op env n r o q m)
  unfolding field_ref_op
  field_ref_op-Next x Ref.untyped o q = tt
  field_ref_op-Next x Ref.string o q = push_string-Next (typed string x) _ _ _ _ q string_string
  field_ref_op-Next x Ref.sequence o q = push_string-Next (typed string x) _ _ _ _ q string_string
  field_ref_op-Next x Ref.s64 o q = push_s64-Next (typed s64 x) _ q s64_s64
  field_ref_op-Next x Ref.double o q = push_double-Next (typed double x) _ q double_double

  pub context_ref_op-Next :
      (x : VEntry) (r : Ref) (o q : ℕ)
      → OnRun (Next n q (typed (ref_type r) x ∷ live)) (context_ref_op env n r o q m)
  unfolding context_ref_op
  context_ref_op-Next x Ref.untyped o q =
      selected_op-Next (typed unknown x) o q (env.ctx_selected o) refl
  context_ref_op-Next x Ref.string o q = push_string-Next (typed string x) _ _ _ _ q string_string
  context_ref_op-Next x Ref.sequence o q = tt
  context_ref_op-Next x Ref.s64 o q = push_s64-Next (typed s64 x) _ q s64_s64
  context_ref_op-Next x Ref.double o q = push_double-Next (typed double x) _ q double_double
