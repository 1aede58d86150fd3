-- ===== src/Bytecode/Specializer/Keeps.antt =====
-- An instruction of the specializer keeps the length of the code and the shape of the data area.
use lttng_ust.Common.{
  ℕ, zero, suc, ◌+◌, ◌^◌, ◌≡◌, refl, ◌∙◌, true, List, [], ◌∷◌, Option, some, none, length,
  length-set,
}
use lttng_ust.Bytecode.{
  Op, Cmp, Operands, Operand, Ref, EntryType, s64, u64, double, string, star_glob_string, unknown,
  ptr,
}
use lttng_ust.Bytecode.Specializer.Data.{Area}
use lttng_ust.Bytecode.Specializer.Area.{IsArea, bytecode_push_data-Stores}
use lttng_ust.Bytecode.Specializer.Types.{Load, VEntry, Loaded}
use lttng_ust.Bytecode.Specializer.Lookup.{Event, Contexts, GetIndexData}
use lttng_ust.Bytecode.Specializer.Insn.{
  State, put, put_number, Choice, refused, null, kept, chosen, specialize_compare,
}
use lttng_ust.Bytecode.Specializer.Moves.{
  After, IfChosen, pop_typed-After, compare_with-After, specialize_return_s64-After, popped-After,
  push-After,
}
use lttng_ust.Bytecode.Specializer.Run.{
  retyped, on_top, unary_choice, cast_choice, specialize_return, loads_pointer, specialize_load,
  store, stored, specialize_index, store_symbol, specialize_get_symbol, as_is, width_type,
  specialize_insn,
}

-- As many bytes of code, and a data area as it should be.
pub record Keeps (n : ℕ) (bytes : List ℕ) (a : Area) : Type 0 where
  pub len : length bytes ≡ n
  pub area : IsArea a

length-put_number : (n : ℕ) (code : List ℕ) (i v : ℕ) → length (put_number n code i v) ≡ length code
length-put_number zero code i v = refl
length-put_number (suc n) code i v = length-put_number n _ _ _ ∙ length-set code i _

module _ (n : ℕ) where
  abbrev Kept : State → Type 0
  Kept s = Keeps n s.code s.area

  put-Keeps : (s : State) (pc : ℕ) (op : Option Op) → Kept s → Kept (put s pc op)
  put-Keeps s pc none k = k
  put-Keeps s pc (some op) k = record { len = length-set s.code pc _ ∙ k.len; area = k.area }

  all_chosen :
      (c : Cmp) (s : State) (pc : ℕ) (h : Choice)
      → Kept s
      → IfChosen (λ k. Kept (put s pc (some (Op.compare c k)))) h
  all_chosen c s pc refused k = tt
  all_chosen c s pc null k = tt
  all_chosen c s pc kept k = tt
  all_chosen c s pc (chosen o) k = put-Keeps s pc (some (Op.compare c o)) k

  specialize_compare-After :
      (c : Cmp) (s : State) (pc : ℕ) (live : List VEntry)
      → Kept s
      → After Kept (specialize_compare c s pc live)
  unfolding specialize_compare
  specialize_compare-After c s pc [] k = tt
  specialize_compare-After c s pc (a ∷ live) k =
      compare_with-After (Keeps n) c s pc (a ∷ live) _ (all_chosen c s pc _ k) k

  retyped-Kept :
      (s : State) (pc : ℕ) (x : VEntry) (live : List VEntry) (l : Loaded)
      → Kept s
      → After Kept (retyped s pc x live l)
  retyped-Kept s pc x live none k = tt
  retyped-Kept s pc x live (some (t, op)) k = put-Keeps s pc op k

  on_top-After :
      (s : State) (pc : ℕ) (f : VEntry → Loaded) (live : List VEntry)
      → Kept s
      → After Kept (on_top s pc f live)
  on_top-After s pc f [] k = tt
  on_top-After s pc f (x ∷ live) k = retyped-Kept s pc x live (f x) k

  specialize_return-After :
      (s : State) (pc : ℕ) (live : List VEntry) → Kept s → After Kept (specialize_return s pc live)
  specialize_return-After s pc [] k = tt
  specialize_return-After s pc (x ∷ live) k = put-Keeps s pc _ k

  loads_pointer-After :
      (x : VEntry) (t : EntryType) (l : Loaded) (s : State) (pc : ℕ) (live : List VEntry)
      → Kept s
      → After Kept (loads_pointer x t l s pc live)
  loads_pointer-After x ptr l s pc live k = retyped-Kept (record s { done = true }) pc x live l k
  loads_pointer-After x s64 l s pc live k = tt
  loads_pointer-After x u64 l s pc live k = tt
  loads_pointer-After x double l s pc live k = tt
  loads_pointer-After x string l s pc live k = tt
  loads_pointer-After x star_glob_string l s pc live k = tt
  loads_pointer-After x unknown l s pc live k = tt

  specialize_load-After :
      (s : State) (pc : ℕ) (live : List VEntry) → Kept s → After Kept (specialize_load s pc live)
  specialize_load-After s pc [] k = tt
  specialize_load-After s pc (x ∷ live) k = loads_pointer-After x x.type _ s pc live k

  stored-After :
      (s : State) (pc w : ℕ) (op : Option Op) (x : VEntry) (live : List VEntry) (load : Load)
      (o : Option (ℕ × Area))
      → ((offset : ℕ) (a : Area) → o ≡ some (offset, a) → IsArea a)
      → Kept s
      → After Kept (stored s pc w op x live load o)
  stored-After s pc w op x live load none ok k = tt
  stored-After s pc w op x live load (some (offset, area)) ok k = record {
    len = length-put_number w _ (pc + 1) offset ∙ (put-Keeps s pc op k).len;
    area = ok offset area refl;
  }

  module _ (ev : Event) where
    store-After :
        (s : State) (pc w : ℕ) (op : Option Op) (x : VEntry) (live : List VEntry)
        (o : Option (GetIndexData × Load))
        → Kept s
        → After Kept (store ev s pc w op x live o)
    store-After s pc w op x live none k = tt
    store-After s pc w op x live (some (gid, load)) k =
        stored-After s pc w op x live load _
          (λ offset a e.
            (bytecode_push_data-Stores ev.alloc s.area (ev.image gid) 8 (2 ^ 61) k.area refl
              e).0.area)
          k

    specialize_index-After :
        (s : State) (pc w : ℕ) (live : List VEntry)
        → Kept s
        → After Kept (specialize_index ev s pc w live)
    specialize_index-After s pc w [] k = tt
    specialize_index-After s pc w (x ∷ live) k = store-After s pc w none x live _ k

    store_symbol-After :
        (s : State) (pc : ℕ) (x : VEntry) (live : List VEntry)
        (o : Option (Contexts × GetIndexData × Load))
        → Kept s
        → After Kept (store_symbol ev s pc x live o)
    store_symbol-After s pc x live none k = tt
    store_symbol-After s pc x live (some (ctx, gid, load)) k =
        store-After (record s { ctx = ctx }) pc 2 (some Op.get_index_u16) x live (some (gid, load))
          (record { len = k.len; area = k.area })

    specialize_get_symbol-After :
        (s : State) (pc : ℕ) (live : List VEntry)
        → Kept s
        → After Kept (specialize_get_symbol ev s pc live)
    specialize_get_symbol-After s pc [] k = tt
    specialize_get_symbol-After s pc (x ∷ live) k = store_symbol-After s pc x live _ k

    pub specialize_insn-After :
        (s : State) (pc : ℕ) (op : Op) → Kept s → After Kept (specialize_insn ev s pc op)
    unfolding specialize_insn
    specialize_insn-After s pc Op.return k = specialize_return-After s pc _ k
    specialize_insn-After s pc Op.return_s64 k = specialize_return_s64-After (Keeps n) s _ k
    specialize_insn-After s pc Op.unsupported k = tt
    specialize_insn-After s pc (Op.compare c Operands.any) k = specialize_compare-After c s pc _ k
    specialize_insn-After s pc (Op.compare c Operands.string) k = pop_typed-After (Keeps n) s _ _ k
    specialize_insn-After s pc (Op.compare c Operands.star_glob) k =
        pop_typed-After (Keeps n) s _ _ k
    specialize_insn-After s pc (Op.compare c Operands.s64) k = pop_typed-After (Keeps n) s _ _ k
    specialize_insn-After s pc (Op.compare c Operands.double) k = pop_typed-After (Keeps n) s _ _ k
    specialize_insn-After s pc (Op.compare c Operands.double_s64) k =
        pop_typed-After (Keeps n) s _ _ k
    specialize_insn-After s pc (Op.compare c Operands.s64_double) k =
        pop_typed-After (Keeps n) s _ _ k
    specialize_insn-After s pc (Op.bitwise o) k = pop_typed-After (Keeps n) s _ _ k
    specialize_insn-After s pc (Op.unary o Operand.any) k =
        on_top-After s pc (λ x. unary_choice o x.type) s.stack.live k
    specialize_insn-After s pc (Op.unary o Operand.s64) k = k
    specialize_insn-After s pc (Op.unary o Operand.double) k = k
    specialize_insn-After s pc Op.unary_bit_not k = k
    specialize_insn-After s pc Op.logical_and k = popped-After (Keeps n) s _ k
    specialize_insn-After s pc Op.logical_or k = popped-After (Keeps n) s _ k
    specialize_insn-After s pc (Op.load_field_ref Ref.untyped) k = tt
    specialize_insn-After s pc (Op.load_field_ref Ref.string) k = push-After (Keeps n) s _ k
    specialize_insn-After s pc (Op.load_field_ref Ref.sequence) k = push-After (Keeps n) s _ k
    specialize_insn-After s pc (Op.load_field_ref Ref.s64) k = push-After (Keeps n) s _ k
    specialize_insn-After s pc (Op.load_field_ref Ref.double) k = push-After (Keeps n) s _ k
    specialize_insn-After s pc (Op.get_context_ref Ref.sequence) k = tt
    specialize_insn-After s pc (Op.get_context_ref Ref.untyped) k = push-After (Keeps n) s _ k
    specialize_insn-After s pc (Op.get_context_ref Ref.string) k = push-After (Keeps n) s _ k
    specialize_insn-After s pc (Op.get_context_ref Ref.s64) k = push-After (Keeps n) s _ k
    specialize_insn-After s pc (Op.get_context_ref Ref.double) k = push-After (Keeps n) s _ k
    specialize_insn-After s pc Op.load_string k = push-After (Keeps n) s _ k
    specialize_insn-After s pc Op.load_star_glob_string k = push-After (Keeps n) s _ k
    specialize_insn-After s pc Op.load_s64 k = push-After (Keeps n) s _ k
    specialize_insn-After s pc Op.load_double k = push-After (Keeps n) s _ k
    specialize_insn-After s pc Op.cast_to_s64 k =
        on_top-After s pc (λ x. cast_choice x.type) s.stack.live k
    specialize_insn-After s pc Op.cast_double_to_s64 k =
        on_top-After s pc (as_is s64) s.stack.live k
    specialize_insn-After s pc Op.cast_nop k = k
    specialize_insn-After s pc (Op.get_root r) k = push-After (Keeps n) s _ k
    specialize_insn-After s pc Op.load_field k = specialize_load-After s pc _ k
    specialize_insn-After s pc (Op.load_field_sized w) k =
        on_top-After s pc (as_is (width_type w)) s.stack.live k
    specialize_insn-After s pc Op.get_symbol k = specialize_get_symbol-After s pc _ k
    specialize_insn-After s pc Op.get_symbol_field k = tt
    specialize_insn-After s pc Op.get_index_u16 k = specialize_index-After s pc 2 _ k
    specialize_insn-After s pc Op.get_index_u64 k = specialize_index-After s pc 8 _ k
