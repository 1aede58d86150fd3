-- ===== src/Bytecode/Specializer/Run.antt =====
-- The dispatch of `lttng_bytecode_specialize` on an instruction, and its loop.
use lttng_ust.Common.{
  ℕ, zero, suc, ◌+◌, true, false, if◌then◌else◌, leb, List, [], ◌∷◌, Option, some, none, length,
}
use lttng_ust.Bytecode.{
  Op, Operands, Unary, Operand, Ref, Root, Width, EntryType, s64, u64, double, string,
  star_glob_string, unknown, ptr, op_at, number_at, size_of,
}
use lttng_ust.Bytecode.Specializer.Data.{Area, bytecode_push_data}
use lttng_ust.Bytecode.Specializer.Types.{
  root, Load, VEntry, VStack, vstack_push, Loaded, specialize_load_field,
}
use lttng_ust.Bytecode.Specializer.Lookup.{
  Event, Contexts, GetIndexData, specialize_get_index, specialize_symbol,
}
use lttng_ust.Bytecode.Specializer.Insn.{
  State, Spec, failed, crashed, stopped, next, put, put_number, with_stack, typed, pop_typed,
  specialize_compare,
}

-- The entry at the top with another type, and the instruction for it.
abbrev pub retyped : State → ℕ → VEntry → List VEntry → Loaded → Spec
retyped s pc x live none = failed
retyped s pc x live (some (t, op)) = next (with_stack (put s pc op) (typed t x ∷ live) s.stack.dead)

abbrev pub on_top : State → ℕ → (VEntry → Loaded) → List VEntry → Spec
on_top s pc f [] = crashed
on_top s pc f (x ∷ live) = retyped s pc x live (f x)

unfoldable pub unary_choice : Unary → EntryType → Loaded
unary_choice o s64 = some (s64, some (Op.unary o Operand.s64))
unary_choice o u64 = some (u64, some (Op.unary o Operand.s64))
unary_choice o double = some (double, some (Op.unary o Operand.double))
unary_choice o unknown = some (unknown, none)
unary_choice o _ = none

unfoldable pub cast_choice : EntryType → Loaded
cast_choice s64 = some (s64, some Op.cast_nop)
cast_choice double = some (s64, some Op.cast_double_to_s64)
cast_choice unknown = some (s64, none)
cast_choice u64 = some (s64, none)
cast_choice _ = none

-- A return of an integer.
abbrev pub return_choice : EntryType → Option Op
return_choice s64 = some Op.return_s64
return_choice u64 = some Op.return_s64
return_choice _ = none

abbrev pub specialize_return : State → ℕ → List VEntry → Spec
specialize_return s pc [] = crashed
specialize_return s pc (x ∷ live) =
    stopped (record (put s pc (return_choice x.type)) { done = true })

abbrev pub integer_return : State → EntryType → Spec
integer_return s s64 = stopped (record s { done = true })
integer_return s u64 = stopped (record s { done = true })
integer_return s _ = failed

abbrev pub specialize_return_s64 : State → List VEntry → Spec
specialize_return_s64 s [] = crashed
specialize_return_s64 s (x ∷ live) = integer_return s x.type

-- Pop 1 when the jump is not taken.
abbrev pub popped : State → List VEntry → Spec
popped s [] = failed
popped s (x ∷ live) = next (with_stack s live (x ∷ s.stack.dead))

abbrev pub set_top : State → (VEntry → VEntry) → List VEntry → List VEntry → Spec
set_top s f [] dead = crashed
set_top s f (x ∷ live) dead = next (with_stack s (f x ∷ live) dead)

abbrev pub pushed_on : State → (VEntry → VEntry) → Option VStack → Spec
pushed_on s f none = failed
pushed_on s f (some stack) = set_top s f stack.live stack.dead

-- An entry pushed, of which the members that nothing sets keep what they held.
abbrev pub push : State → (VEntry → VEntry) → Spec
push s f = pushed_on s f (vstack_push s.stack)

abbrev pub at_root : Root → VEntry → VEntry
at_root r x = record x { type = ptr; load = record x.load { type = root r } }

abbrev pub loads_pointer : VEntry → EntryType → Loaded → State → ℕ → List VEntry → Spec
loads_pointer x ptr l s pc live = retyped (record s { done = true }) pc x live l
loads_pointer x _ l s pc live = crashed

-- The assertion is on the type of the top.
abbrev pub specialize_load : State → ℕ → List VEntry → Spec
specialize_load s pc [] = crashed
specialize_load s pc (x ∷ live) = loads_pointer x x.type (specialize_load_field x) s pc live

-- The data stored, and its offset written behind an instruction, into `n` bytes.
abbrev pub stored :
    State → ℕ → ℕ → Option Op → VEntry → List VEntry → Load → Option (ℕ × Area) → Spec
stored s pc n op x live load none = failed
stored s pc n op x live load (some (offset, area)) =
    next (record (with_stack (put s pc op) (record x { load = load } ∷ live) s.stack.dead) {
      code = put_number n (put s pc op).code (pc + 1) offset;
      area = area;
      done = true;
    })

abbrev pub ref_type : Ref → EntryType
ref_type Ref.untyped = unknown
ref_type Ref.string = string
ref_type Ref.sequence = string
ref_type Ref.s64 = s64
ref_type Ref.double = double

abbrev pub width_type : Width → EntryType
width_type Width.u8 = u64
width_type Width.u16 = u64
width_type Width.u32 = u64
width_type Width.u64 = u64
width_type Width.string = string
width_type Width.sequence = string
width_type Width.double = double
width_type _ = s64

abbrev pub as_is : EntryType → VEntry → Loaded
as_is t x = some (t, none)

module _ (ev : Event) where
  abbrev pub store :
      State → ℕ → ℕ → Option Op → VEntry → List VEntry → Option (GetIndexData × Load) → Spec
  store s pc n op x live none = failed
  store s pc n op x live (some (gid, load)) =
      stored s pc n op x live load (bytecode_push_data ev.alloc s.area (ev.image gid) 8)

  abbrev pub specialize_index : State → ℕ → ℕ → List VEntry → Spec
  specialize_index s pc n [] = crashed
  specialize_index s pc n (x ∷ live) =
      store s pc n none x live (specialize_get_index (number_at n s.code (pc + 1)) x.load)

  abbrev pub store_symbol :
      State → ℕ → VEntry → List VEntry → Option (Contexts × GetIndexData × Load) → Spec
  store_symbol s pc x live none = failed
  store_symbol s pc x live (some (ctx, gid, load)) =
      store (record s { ctx = ctx }) pc 2 (some Op.get_index_u16) x live (some (gid, load))

  -- A symbol becomes an index.
  abbrev pub specialize_get_symbol : State → ℕ → List VEntry → Spec
  specialize_get_symbol s pc [] = crashed
  specialize_get_symbol s pc (x ∷ live) =
      store_symbol s pc x live
        (specialize_symbol ev s.ctx (ev.symbol (number_at 2 s.code (pc + 1))) x.load x.load.type)

  -- The `switch` of `lttng_bytecode_specialize`.
  unfoldable pub specialize_insn : State → ℕ → Op → Spec
  specialize_insn s pc Op.return = specialize_return s pc s.stack.live
  specialize_insn s pc Op.return_s64 = specialize_return_s64 s s.stack.live
  specialize_insn s pc Op.unsupported = failed
  specialize_insn s pc (Op.compare c Operands.any) = specialize_compare c s pc s.stack.live
  specialize_insn s pc (Op.compare c _) = pop_typed s s64 s.stack.live
  specialize_insn s pc (Op.bitwise _) = pop_typed s s64 s.stack.live
  specialize_insn s pc (Op.unary o Operand.any) =
      on_top s pc (λ x. unary_choice o x.type) s.stack.live
  specialize_insn s pc (Op.unary o _) = next s
  specialize_insn s pc Op.unary_bit_not = next s
  specialize_insn s pc Op.logical_and = popped s s.stack.live
  specialize_insn s pc Op.logical_or = popped s s.stack.live
  specialize_insn s pc (Op.load_field_ref Ref.untyped) = failed
  specialize_insn s pc (Op.load_field_ref r) = push s (typed (ref_type r))
  specialize_insn s pc (Op.get_context_ref Ref.sequence) = failed
  specialize_insn s pc (Op.get_context_ref r) = push s (typed (ref_type r))
  specialize_insn s pc Op.load_string = push s (typed string)
  specialize_insn s pc Op.load_star_glob_string = push s (typed star_glob_string)
  specialize_insn s pc Op.load_s64 = push s (typed s64)
  specialize_insn s pc Op.load_double = push s (typed double)
  specialize_insn s pc Op.cast_to_s64 = on_top s pc (λ x. cast_choice x.type) s.stack.live
  specialize_insn s pc Op.cast_double_to_s64 = on_top s pc (as_is s64) s.stack.live
  specialize_insn s pc Op.cast_nop = next s
  specialize_insn s pc (Op.get_root r) = push s (at_root r)
  specialize_insn s pc Op.load_field = specialize_load s pc s.stack.live
  specialize_insn s pc (Op.load_field_sized w) = on_top s pc (as_is (width_type w)) s.stack.live
  specialize_insn s pc Op.get_symbol = specialize_get_symbol s pc s.stack.live
  specialize_insn s pc Op.get_symbol_field = failed
  specialize_insn s pc Op.get_index_u16 = specialize_index s pc 2 s.stack.live
  specialize_insn s pc Op.get_index_u64 = specialize_index s pc 8 s.stack.live

-- The end of the pass: out of fuel, with an error, through a NULL pointer or a failed assertion, or
-- with 0.
pub data Result : Type 0 where
  unfinished refused crash : Result
  specialized : State → Result

abbrev pub after : (State → Result) → Spec → Result
after rest failed = refused
after rest crashed = crash
after rest (stopped s) = specialized s
after rest (next s) = rest s

abbrev pub at_op : Event → State → ℕ → (ℕ → State → Result) → Option Op → Result
at_op ev s pc rest none = refused
at_op ev s pc rest (some op) = after (rest (pc + size_of s.code pc op)) (specialize_insn ev s pc op)

-- The loop, on fuel. Behind the code's last byte the pass returns what `ret` holds.
unfoldable pub specialize_from : ℕ → Event → ℕ → State → Result
specialize_from zero ev pc s = unfinished
specialize_from (suc f) ev pc s =
    let rest = specialize_from f ev in
    if leb (length s.code) pc
    then if s.done then specialized s else refused
    else at_op ev s pc rest (op_at s.code pc)

-- `lttng_bytecode_specialize`, with what the stack's memory holds.
unfoldable pub lttng_bytecode_specialize : Event → List ℕ → Area → Contexts → List VEntry → Result
lttng_bytecode_specialize ev code area ctx memory =
    specialize_from (suc (length code)) ev 0 record {
      code = code;
      area = area;
      ctx = ctx;
      stack = record { live = []; dead = memory };
      done = false;
    }
