-- ===== src/Bytecode/Specializer/Moves.antt =====
-- The moves of the specializer on its stack leave the code and the data as they are.
use lttng_ust.Common.{ℕ, List, [], ◌∷◌, Option, some, none}
use lttng_ust.Bytecode.{
  Op, Cmp, Operands, EntryType, s64, u64, double, string, star_glob_string, unknown, ptr,
}
use lttng_ust.Bytecode.Specializer.Data.{Area}
use lttng_ust.Bytecode.Specializer.Types.{VEntry, VStack, Loaded}
use lttng_ust.Bytecode.Specializer.Insn.{
  State, Spec, failed, crashed, stopped, next, put, pop_typed, Choice, refused, null, kept, chosen,
  compare_with, compared,
}
use lttng_ust.Bytecode.Specializer.Run.{
  retyped, specialize_return_s64, integer_return, popped, set_top, pushed_on, push,
}

-- The state that an instruction leaves, if it does not end the pass with an error.
abbrev pub After : (State → Type 0) → Spec → Type 0
After P failed = Unit
After P crashed = Unit
After P (stopped s) = P s
After P (next s) = P s

abbrev pub IfLoaded : (Option Op → Type 0) → Loaded → Type 0
IfLoaded P none = Unit
IfLoaded P (some (t, op)) = P op

abbrev pub IfChosen : (Operands → Type 0) → Choice → Type 0
IfChosen P (chosen k) = P k
IfChosen P _ = Unit

module _ (Q : List ℕ → Area → Type 0) where
  -- A condition on the code and the data.
  abbrev pub Holds : State → Type 0
  Holds s = Q s.code s.area

  pub pop_typed-After :
      (s : State) (t : EntryType) (live : List VEntry) → Holds s → After Holds (pop_typed s t live)
  pop_typed-After s t [] k = tt
  pop_typed-After s t (a ∷ []) k = tt
  pop_typed-After s t (a ∷ b ∷ live) k = k

  pub compared-After :
      (c : Cmp) (s : State) (live : List VEntry) → Holds s → After Holds (compared c s live)
  unfolding compared
  compared-After Cmp.le s [] k = tt
  compared-After Cmp.le s (a ∷ live) k = k
  compared-After Cmp.eq s live k = pop_typed-After s _ live k
  compared-After Cmp.ne s live k = pop_typed-After s _ live k
  compared-After Cmp.gt s live k = pop_typed-After s _ live k
  compared-After Cmp.lt s live k = pop_typed-After s _ live k
  compared-After Cmp.ge s live k = pop_typed-After s _ live k

  pub integer_return-After :
      (s : State) (t : EntryType) → Holds s → After Holds (integer_return s t)
  integer_return-After s s64 k = k
  integer_return-After s u64 k = k
  integer_return-After s double k = tt
  integer_return-After s string k = tt
  integer_return-After s star_glob_string k = tt
  integer_return-After s unknown k = tt
  integer_return-After s ptr k = tt

  pub specialize_return_s64-After :
      (s : State) (live : List VEntry) → Holds s → After Holds (specialize_return_s64 s live)
  specialize_return_s64-After s [] k = tt
  specialize_return_s64-After s (x ∷ live) k = integer_return-After s x.type k

  pub popped-After : (s : State) (live : List VEntry) → Holds s → After Holds (popped s live)
  popped-After s [] k = tt
  popped-After s (x ∷ live) k = k

  pub set_top-After :
      (s : State) (f : VEntry → VEntry) (live dead : List VEntry)
      → Holds s
      → After Holds (set_top s f live dead)
  set_top-After s f [] dead k = tt
  set_top-After s f (x ∷ live) dead k = k

  pub pushed_on-After :
      (s : State) (f : VEntry → VEntry) (o : Option VStack)
      → Holds s
      → After Holds (pushed_on s f o)
  pushed_on-After s f none k = tt
  pushed_on-After s f (some stack) k = set_top-After s f stack.live stack.dead k

  pub push-After : (s : State) (f : VEntry → VEntry) → Holds s → After Holds (push s f)
  push-After s f k = pushed_on-After s f _ k

  -- What an instruction is written over by is as it should be, and so is what stays.
  pub compare_with-After :
      (c : Cmp) (s : State) (pc : ℕ) (live : List VEntry) (h : Choice)
      → IfChosen (λ k. Holds (put s pc (some (Op.compare c k)))) h
      → Holds s
      → After Holds (compare_with c s pc live h)
  compare_with-After c s pc live refused w k = tt
  compare_with-After c s pc live null w k = tt
  compare_with-After c s pc live kept w k = compared-After c s live k
  compare_with-After c s pc live (chosen o) w k = compared-After c _ live w

  pub retyped-After :
      (s : State) (pc : ℕ) (x : VEntry) (live : List VEntry) (l : Loaded)
      → IfLoaded (λ op. Holds (put s pc op)) l
      → After Holds (retyped s pc x live l)
  retyped-After s pc x live none w = tt
  retyped-After s pc x live (some (t, none)) w = w
  retyped-After s pc x live (some (t, some op)) w = w
