-- ===== src/Bytecode/Specializer/Agree.antt =====
-- What an instruction becomes does on the interpreter what the instruction did, or what was an error.
use lttng_ust.Common.{
  ℕ, ◌<◌, ◌≡◌, refl, sym, ap, ◌⊎◌, inl, inr, arith, Bool, true, false, List, [], ◌∷◌, Option, some,
  none, length, set, get_elem?-set_self,
}
use lttng_ust.Bytecode.{Op, Cmp, Operands, Unary, Operand, Ref, EntryType, s64, op_at}
use lttng_ust.Bytecode.Interpreter.Machine.{Machine, Env, Outcome, error}
use lttng_ust.Bytecode.Interpreter.Compare.{compare_op, compare_any, compare_by}
use lttng_ust.Bytecode.Interpreter.Arith.{unary_op, unary_by, return_op, return_by}
use lttng_ust.Bytecode.Interpreter.Load.{cast_op, cast_by}
use lttng_ust.Bytecode.Interpreter.Run.{exec}
use lttng_ust.Bytecode.Specializer.Data.{Area}
use lttng_ust.Bytecode.Specializer.Types.{VEntry, Loaded}
use lttng_ust.Bytecode.Specializer.Lookup.{Event}
use lttng_ust.Bytecode.Specializer.Insn.{State, opcode, put, choice, specialize_compare}
use lttng_ust.Bytecode.Specializer.Run.{
  retyped, on_top, unary_choice, cast_choice, return_choice, specialize_return, as_is, width_type,
  specialize_insn,
}
use lttng_ust.Bytecode.Specializer.Moves.{
  After, IfLoaded, pop_typed-After, compare_with-After, specialize_return_s64-After, popped-After,
  push-After,
}
use lttng_ust.Bytecode.Specializer.Choices.{
  Covers, any, s64_s64, s64_u64, u64_s64, u64_u64, double_double, double_ptr, string_string,
  string_ptr, glob_glob, ptr_ptr, Encoded, Finds, choice-Finds, choice-Encoded, choice-none,
  IfChosen-both,
}

-- An error, or the same.
abbrev pub Refines : Outcome → Outcome → Type 0
Refines o o' = (o ≡ error) ⊎ (o' ≡ o)

-- The static types of the two entries at the top, against those of the registers.
abbrev pub CoversTop : List VEntry → Machine → Type 0
CoversTop [] m = Unit
CoversTop (a ∷ []) m = Covers a.type m.ax_t
CoversTop (a ∷ b ∷ live) m = Covers a.type m.ax_t × Covers b.type m.bx_t

-- The pass leaves these to the composed types, which it looks up.
abbrev pub is_traversal : Op → Bool
is_traversal Op.load_field = true
is_traversal Op.get_symbol = true
is_traversal Op.get_index_u16 = true
is_traversal Op.get_index_u64 = true
is_traversal _ = false

pub op_at-set :
    (code : List ℕ) (pc : ℕ) (op : Op)
    → pc < length code
    → Encoded op
    → op_at (set code pc (opcode op)) pc ≡ some op
unfolding op_at
op_at-set code pc op h e = rw (get_elem?-set_self code pc (opcode op) h, op_at) (rw (e, op_at) refl)

module _ (env : Env) (capture : Bool) (n pc : ℕ) (m : Machine) where
  -- At the offset stands an instruction that refines this one.
  abbrev pub Stands : List ℕ → Op → List ℕ → Type 0
  Stands code op code' =
      (op' : Op) × (op_at code' pc ≡ some op')
      × Refines (exec env capture n code pc m op) (exec env capture n code' pc m op')

  -- An instruction may be written over by another one, or stays.
  abbrev Rewrites : List ℕ → Op → Option Op → Type 0
  Rewrites code op none = Unit
  Rewrites code op (some op') =
      Encoded op'
      × ((code' : List ℕ)
          → Refines (exec env capture n code pc m op) (exec env capture n code' pc m op'))

  put-Stands :
      (s : State) (op : Op) (o : Option Op)
      → op_at s.code pc ≡ some op
      → pc < length s.code
      → Rewrites s.code op o
      → Stands s.code op (put s pc o).code
  put-Stands s op none e h w = (op, e, inr refl)
  put-Stands s op (some op') e h w = (op', op_at-set s.code pc op' h w.0, w.1 _)

  compare_by-Refines :
      (c : Cmp) (k : Operands) (o : Option Operands)
      → (o ≡ none) ⊎ (o ≡ some k)
      → Refines (compare_by env c pc m o) (compare_op env c k pc m)
  compare_by-Refines c k o (inl e) = inl (ap (compare_by env c pc m) e)
  compare_by-Refines c k o (inr e) = inr (sym (ap (compare_by env c pc m) e))

  compare-Refines :
      (code code' : List ℕ) (c : Cmp) (k : Operands)
      → Finds c m.ax_t m.bx_t k
      → Refines
          (exec env capture n code pc m (Op.compare c Operands.any))
          (exec env capture n code' pc m (Op.compare c k))
  unfolding exec compare_any
  compare-Refines code code' c Operands.any f = inr refl
  compare-Refines code code' c Operands.string f = compare_by-Refines c _ _ f
  compare-Refines code code' c Operands.star_glob f = compare_by-Refines c _ _ f
  compare-Refines code code' c Operands.s64 f = compare_by-Refines c _ _ f
  compare-Refines code code' c Operands.double f = compare_by-Refines c _ _ f
  compare-Refines code code' c Operands.double_s64 f = compare_by-Refines c _ _ f
  compare-Refines code code' c Operands.s64_double f = compare_by-Refines c _ _ f

  unary-Encoded : (o : Unary) (k : Operand) → Encoded (Op.unary o k)
  unfolding opcode
  unary-Encoded o k = ground arith

  unary-Rewrites :
      (code : List ℕ) (o : Unary) {a t : EntryType}
      → Covers a t
      → m.ax_t ≡ t
      → IfLoaded (Rewrites code (Op.unary o Operand.any)) (unary_choice o a)
  unfolding exec unary_op unary_choice
  unary-Rewrites code o any e = tt
  unary-Rewrites code o s64_s64 e =
      (unary-Encoded o Operand.s64, λ _. inr (sym (ap (unary_by env o pc m) e)))
  unary-Rewrites code o s64_u64 e =
      (unary-Encoded o Operand.s64, λ _. inr (sym (ap (unary_by env o pc m) e)))
  unary-Rewrites code o u64_s64 e =
      (unary-Encoded o Operand.s64, λ _. inr (sym (ap (unary_by env o pc m) e)))
  unary-Rewrites code o u64_u64 e =
      (unary-Encoded o Operand.s64, λ _. inr (sym (ap (unary_by env o pc m) e)))
  unary-Rewrites code o double_double e =
      (unary-Encoded o Operand.double, λ _. inr (sym (ap (unary_by env o pc m) e)))
  unary-Rewrites code o double_ptr e =
      (unary-Encoded o Operand.double, λ _. inl (ap (unary_by env o pc m) e))
  unary-Rewrites code o string_string e = tt
  unary-Rewrites code o string_ptr e = tt
  unary-Rewrites code o glob_glob e = tt
  unary-Rewrites code o ptr_ptr e = tt

  cast-Rewrites :
      (code : List ℕ) {a t : EntryType}
      → Covers a t
      → m.ax_t ≡ t
      → IfLoaded (Rewrites code Op.cast_to_s64) (cast_choice a)
  unfolding exec cast_op cast_choice opcode
  cast-Rewrites code any e = tt
  cast-Rewrites code s64_s64 e = (refl, λ _. inr (sym (ap (cast_by env pc m) e)))
  cast-Rewrites code s64_u64 e = (refl, λ _. inl (ap (cast_by env pc m) e))
  cast-Rewrites code u64_s64 e = tt
  cast-Rewrites code u64_u64 e = tt
  cast-Rewrites code double_double e = (refl, λ _. inr (sym (ap (cast_by env pc m) e)))
  cast-Rewrites code double_ptr e = (refl, λ _. inl (ap (cast_by env pc m) e))
  cast-Rewrites code string_string e = tt
  cast-Rewrites code string_ptr e = tt
  cast-Rewrites code glob_glob e = tt
  cast-Rewrites code ptr_ptr e = tt

  return-Rewrites :
      (code : List ℕ) {a t : EntryType}
      → Covers a t
      → m.ax_t ≡ t
      → Rewrites code Op.return (return_choice a)
  unfolding exec return_op opcode
  return-Rewrites code any e = tt
  return-Rewrites code s64_s64 e = (refl, λ _. inr (sym (ap (return_by capture m) e)))
  return-Rewrites code s64_u64 e = (refl, λ _. inr (sym (ap (return_by capture m) e)))
  return-Rewrites code u64_s64 e = (refl, λ _. inr (sym (ap (return_by capture m) e)))
  return-Rewrites code u64_u64 e = (refl, λ _. inr (sym (ap (return_by capture m) e)))
  return-Rewrites code double_double e = tt
  return-Rewrites code double_ptr e = tt
  return-Rewrites code string_string e = tt
  return-Rewrites code string_ptr e = tt
  return-Rewrites code glob_glob e = tt
  return-Rewrites code ptr_ptr e = tt

  -- The instruction at the offset, and the static stack over the machine's registers.
  module _ (s : State) (op : Op) (found : op_at s.code pc ≡ some op)
      (inside : pc < length s.code) where
    abbrev Q : List ℕ → Area → Type 0
    Q code _ = Stands s.code op code

    stays : Q s.code s.area
    stays = (op, found, inr refl)

    loaded-Stands :
        (x : VEntry) (live : List VEntry) (l : Loaded)
        → IfLoaded (Rewrites s.code op) l
        → After (λ s'. Stands s.code op s'.code) (retyped s pc x live l)
    loaded-Stands x live none w = tt
    loaded-Stands x live (some (t, o)) w = put-Stands s op o found inside w

  chosen-Stands :
      (s : State) (c : Cmp)
      → op_at s.code pc ≡ some (Op.compare c Operands.any)
      → pc < length s.code
      → (live : List VEntry) → CoversTop live m
      → After
          (λ s'. Stands s.code (Op.compare c Operands.any) s'.code)
          (specialize_compare c s pc live)
  unfolding specialize_compare
  chosen-Stands s c found inside [] h = tt
  chosen-Stands s c found inside (a ∷ []) h =
      compare_with-After (Q s _ found inside) c s pc (a ∷ []) _ (choice-none _ c a.type)
        (stays s _ found inside)
  chosen-Stands s c found inside (a ∷ b ∷ live) h =
      compare_with-After (Q s _ found inside) c s pc (a ∷ b ∷ live) (choice c a.type (some b.type))
        (IfChosen-both _ _ _ _
          (λ k e f.
            put-Stands s _ (some (Op.compare c k)) found inside
              (e, λ code'. compare-Refines s.code code' c k f))
          (choice-Encoded c a.type (some b.type)) (choice-Finds c h.0 h.1))
        (stays s _ found inside)

  top-Covers : (x : VEntry) (live : List VEntry) → CoversTop (x ∷ live) m → Covers x.type m.ax_t
  top-Covers x [] h = h
  top-Covers x (b ∷ live) h = h.0

  on_top-Stands :
      (s : State) (op : Op)
      → op_at s.code pc ≡ some op
      → pc < length s.code
      → (f : VEntry → Loaded)
      → ((x : VEntry) → Covers x.type m.ax_t → IfLoaded (Rewrites s.code op) (f x))
      → (live : List VEntry) → CoversTop live m
      → After (λ s'. Stands s.code op s'.code) (on_top s pc f live)
  on_top-Stands s op found inside f w [] h = tt
  on_top-Stands s op found inside f w (x ∷ live) h =
      loaded-Stands s op found inside x live (f x) (w x (top-Covers x live h))

  return-Stands :
      (s : State)
      → op_at s.code pc ≡ some Op.return
      → pc < length s.code
      → (live : List VEntry) → CoversTop live m
      → After (λ s'. Stands s.code Op.return s'.code) (specialize_return s pc live)
  return-Stands s found inside [] h = tt
  return-Stands s found inside (x ∷ live) h =
      put-Stands s _ (return_choice x.type) found inside
        (return-Rewrites s.code (top-Covers x live h) refl)

  -- Let an instruction stand at an offset of the code, not one of those that traverse composed types,
  -- and let the static types of the two entries at the top cover the types of a machine's registers.
  -- Where the specializer goes on behind it, an instruction stands there again: what the machine does
  -- with it is what it did with the one before, unless that was an error.
  pub specialize_insn-Stands :
      (ev : Event) (s : State) (op : Op)
      → op_at s.code pc ≡ some op
      → pc < length s.code
      → is_traversal op ≡ false
      → CoversTop s.stack.live m
      → After (λ s'. Stands s.code op s'.code) (specialize_insn ev s pc op)
  unfolding specialize_insn
  specialize_insn-Stands ev s Op.return found inside plain h =
      return-Stands s found inside s.stack.live h
  specialize_insn-Stands ev s Op.return_s64 found inside plain h =
      specialize_return_s64-After (Q s _ found inside) s _ (stays s _ found inside)
  specialize_insn-Stands ev s Op.unsupported found inside plain h = tt
  specialize_insn-Stands ev s (Op.compare c Operands.any) found inside plain h =
      chosen-Stands s c found inside s.stack.live h
  specialize_insn-Stands ev s (Op.compare c Operands.string) found inside plain h =
      pop_typed-After (Q s _ found inside) s _ _ (stays s _ found inside)
  specialize_insn-Stands ev s (Op.compare c Operands.star_glob) found inside plain h =
      pop_typed-After (Q s _ found inside) s _ _ (stays s _ found inside)
  specialize_insn-Stands ev s (Op.compare c Operands.s64) found inside plain h =
      pop_typed-After (Q s _ found inside) s _ _ (stays s _ found inside)
  specialize_insn-Stands ev s (Op.compare c Operands.double) found inside plain h =
      pop_typed-After (Q s _ found inside) s _ _ (stays s _ found inside)
  specialize_insn-Stands ev s (Op.compare c Operands.double_s64) found inside plain h =
      pop_typed-After (Q s _ found inside) s _ _ (stays s _ found inside)
  specialize_insn-Stands ev s (Op.compare c Operands.s64_double) found inside plain h =
      pop_typed-After (Q s _ found inside) s _ _ (stays s _ found inside)
  specialize_insn-Stands ev s (Op.bitwise o) found inside plain h =
      pop_typed-After (Q s _ found inside) s _ _ (stays s _ found inside)
  specialize_insn-Stands ev s (Op.unary o Operand.any) found inside plain h =
      on_top-Stands s _ found inside (λ x. unary_choice o x.type)
        (λ x k. unary-Rewrites s.code o k refl) s.stack.live h
  specialize_insn-Stands ev s (Op.unary o Operand.s64) found inside plain h = stays s _ found inside
  specialize_insn-Stands ev s (Op.unary o Operand.double) found inside plain h =
      stays s _ found inside
  specialize_insn-Stands ev s Op.unary_bit_not found inside plain h = stays s _ found inside
  specialize_insn-Stands ev s Op.logical_and found inside plain h =
      popped-After (Q s _ found inside) s _ (stays s _ found inside)
  specialize_insn-Stands ev s Op.logical_or found inside plain h =
      popped-After (Q s _ found inside) s _ (stays s _ found inside)
  specialize_insn-Stands ev s (Op.load_field_ref Ref.untyped) found inside plain h = tt
  specialize_insn-Stands ev s (Op.load_field_ref Ref.string) found inside plain h =
      push-After (Q s _ found inside) s _ (stays s _ found inside)
  specialize_insn-Stands ev s (Op.load_field_ref Ref.sequence) found inside plain h =
      push-After (Q s _ found inside) s _ (stays s _ found inside)
  specialize_insn-Stands ev s (Op.load_field_ref Ref.s64) found inside plain h =
      push-After (Q s _ found inside) s _ (stays s _ found inside)
  specialize_insn-Stands ev s (Op.load_field_ref Ref.double) found inside plain h =
      push-After (Q s _ found inside) s _ (stays s _ found inside)
  specialize_insn-Stands ev s (Op.get_context_ref Ref.sequence) found inside plain h = tt
  specialize_insn-Stands ev s (Op.get_context_ref Ref.untyped) found inside plain h =
      push-After (Q s _ found inside) s _ (stays s _ found inside)
  specialize_insn-Stands ev s (Op.get_context_ref Ref.string) found inside plain h =
      push-After (Q s _ found inside) s _ (stays s _ found inside)
  specialize_insn-Stands ev s (Op.get_context_ref Ref.s64) found inside plain h =
      push-After (Q s _ found inside) s _ (stays s _ found inside)
  specialize_insn-Stands ev s (Op.get_context_ref Ref.double) found inside plain h =
      push-After (Q s _ found inside) s _ (stays s _ found inside)
  specialize_insn-Stands ev s Op.load_string found inside plain h =
      push-After (Q s _ found inside) s _ (stays s _ found inside)
  specialize_insn-Stands ev s Op.load_star_glob_string found inside plain h =
      push-After (Q s _ found inside) s _ (stays s _ found inside)
  specialize_insn-Stands ev s Op.load_s64 found inside plain h =
      push-After (Q s _ found inside) s _ (stays s _ found inside)
  specialize_insn-Stands ev s Op.load_double found inside plain h =
      push-After (Q s _ found inside) s _ (stays s _ found inside)
  specialize_insn-Stands ev s Op.cast_to_s64 found inside plain h =
      on_top-Stands s _ found inside (λ x. cast_choice x.type) (λ x k. cast-Rewrites s.code k refl)
        s.stack.live h
  specialize_insn-Stands ev s Op.cast_double_to_s64 found inside plain h =
      on_top-Stands s _ found inside (as_is s64) (λ x k. tt) s.stack.live h
  specialize_insn-Stands ev s Op.cast_nop found inside plain h = stays s _ found inside
  specialize_insn-Stands ev s (Op.get_root r) found inside plain h =
      push-After (Q s _ found inside) s _ (stays s _ found inside)
  specialize_insn-Stands ev s (Op.load_field_sized w) found inside plain h =
      on_top-Stands s _ found inside (as_is (width_type w)) (λ x k. tt) s.stack.live h
  specialize_insn-Stands ev s Op.get_symbol_field found inside plain h = tt
  specialize_insn-Stands ev s Op.load_field found inside plain h = ground arith
  specialize_insn-Stands ev s Op.get_symbol found inside plain h = ground arith
  specialize_insn-Stands ev s Op.get_index_u16 found inside plain h = ground arith
  specialize_insn-Stands ev s Op.get_index_u64 found inside plain h = ground arith
