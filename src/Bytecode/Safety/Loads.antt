-- ===== src/Bytecode/Safety/Loads.antt =====
-- The loads of the interpreter, on a machine of which the stack's height is known.
use lttng_ust.Common.{ℕ, suc, ◌+◌, ◌<◌, ◌==◌, refl, arith, Option, some, none}
use lttng_ust.Bytecode.{
  EntryType, s64, u64, double, string, star_glob_string, unknown, ptr, Ref, Root, Width,
}
use lttng_ust.Bytecode.Interpreter.Machine.{
  Literal, Entry, Machine, Env, Outcome, Selected, none_selected, s64_selected, double_selected,
  string_selected, other_selected, estack_ax, ◌>>=◌,
}
use lttng_ust.Bytecode.Interpreter.Load.{
  push_string, push_s64, push_double, field_ref_op, context_ref_op, double_to_s64_op, cast_op,
  root_op, symbol_op, entry_op, sized_op, selected_op, cast_by, give_entry, load_integer,
  load_unsigned, load_text,
}
use lttng_ust.Bytecode.Safety.Stack.{
  Post, fails, goes_on, Holds, At, Post-push, Post-ax, Post-if, Holds-registers, Holds-memory,
}

-- Pushes, where there is room.
module _ (env : Env) {n h : ℕ} (m : Machine) (at : Holds n h m) (room : h + 2 < n) (pc : ℕ) where
  pub push_string-Post :
      (t : EntryType) (l : Literal) (a len : ℕ)
      → Post (At n pc (suc h)) (push_string n t l a len pc m)
  push_string-Post t l a len = Post-push m at _ room (λ m' at'.
      Post-ax m' at' _ (omega arith) (omega arith)
        (λ x. Post-if (a == 0) fails (goes_on (refl, Holds-memory m' at' _ _ _))))

  pub push_s64-Post : (v : ℕ) → Post (At n pc (suc h)) (push_s64 n v pc m)
  push_s64-Post v = Post-push m at _ room (λ m' at'. goes_on (refl, Holds-registers m' at' v s64))

  pub push_double-Post : (v : ℕ) → Post (At n pc (suc h)) (push_double n v pc m)
  push_double-Post v = Post-push m at _ room (λ m' at'.
      Post-ax m' at' _ (omega arith) (omega arith) (λ x. goes_on (refl, Holds-memory m' at' _ _ _)))

  pub field_ref_op-Post : (r : Ref) (o : ℕ) → Post (At n pc (suc h)) (field_ref_op env n r o pc m)
  unfolding field_ref_op
  field_ref_op-Post Ref.untyped o = fails
  field_ref_op-Post Ref.string o = push_string-Post _ _ _ _
  field_ref_op-Post Ref.sequence o = push_string-Post _ _ _ _
  field_ref_op-Post Ref.s64 o = push_s64-Post _
  field_ref_op-Post Ref.double o = push_double-Post _

  selected_op-Post : (o : ℕ) (k : Selected) → Post (At n pc (suc h)) (selected_op env n o pc m k)
  selected_op-Post o none_selected = Post-push m at _ room (λ _ _. fails)
  selected_op-Post o s64_selected = push_s64-Post _
  selected_op-Post o double_selected = push_double-Post _
  selected_op-Post o string_selected = push_string-Post _ _ _ _
  selected_op-Post o other_selected = Post-push m at _ room (λ _ _. fails)

  pub context_ref_op-Post :
      (r : Ref) (o : ℕ) → Post (At n pc (suc h)) (context_ref_op env n r o pc m)
  unfolding context_ref_op
  context_ref_op-Post Ref.untyped o = selected_op-Post o (env.ctx_selected o)
  context_ref_op-Post Ref.string o = push_string-Post _ _ _ _
  context_ref_op-Post Ref.sequence o = fails
  context_ref_op-Post Ref.s64 o = push_s64-Post _
  context_ref_op-Post Ref.double o = push_double-Post _

  pub root_op-Post : (r : Root) → Post (At n (pc + 1) (suc h)) (root_op env n r pc m)
  unfolding root_op
  root_op-Post r = Post-push m at _ room (λ m' at'.
      Post-ax m' at' _ (omega arith) (omega arith) (λ x. goes_on (refl, Holds-memory m' at' _ _ _)))

-- Operations on the top, where there is one.
module _ (env : Env) {n h : ℕ} (m : Machine) (at : Holds n (suc h) m) (inside : h + 2 < n)
    (pc : ℕ) where
  in_ax :
      {P : ℕ → Machine → Type 0} (f : Entry → Outcome)
      → ((x : Entry) → Post P (f x))
      → Post P (estack_ax m >>= f)
  in_ax f = Post-ax m at f (omega arith) (omega arith)

  pub double_to_s64_op-Post : Post (At n (pc + 1) (suc h)) (double_to_s64_op env pc m)
  unfolding double_to_s64_op
  double_to_s64_op-Post = in_ax _ (λ x. goes_on (refl, Holds-registers m at _ _))

  cast_by-Post : (t : EntryType) → Post (At n (pc + 1) (suc h)) (cast_by env pc m t)
  cast_by-Post s64 = goes_on (refl, at)
  cast_by-Post double = double_to_s64_op-Post
  cast_by-Post u64 = fails
  cast_by-Post string = fails
  cast_by-Post star_glob_string = fails
  cast_by-Post unknown = fails
  cast_by-Post ptr = fails

  pub cast_op-Post : Post (At n (pc + 1) (suc h)) (cast_op env pc m)
  unfolding cast_op
  cast_op-Post = cast_by-Post m.ax_t

  pub symbol_op-Post : Post (At n (pc + 3) (suc h)) (symbol_op pc m)
  unfolding symbol_op
  symbol_op-Post = in_ax _ (λ x. Post-if _ fails (goes_on (refl, at)))

  give_entry-Post : (o : Option Entry) → Post (At n pc (suc h)) (give_entry pc m o)
  give_entry-Post none = fails
  give_entry-Post (some y) = goes_on (refl, Holds-memory m at _ _ _)

  pub entry_op-Post : (f : Entry → Option Entry) → Post (At n pc (suc h)) (entry_op f pc m)
  unfolding entry_op
  entry_op-Post f = in_ax _ (λ x. give_entry-Post (f x))

  load_integer-Post : (w : Width) → Post (At n (pc + 1) (suc h)) (load_integer env w pc m)
  load_integer-Post w = in_ax _ (λ x. goes_on (refl, Holds-registers m at _ _))

  load_unsigned-Post : (w : Width) → Post (At n (pc + 1) (suc h)) (load_unsigned env w pc m)
  load_unsigned-Post w = in_ax _ (λ x. goes_on (refl, Holds-registers m at _ _))

  load_text-Post : (a len : ℕ) (x : Entry) → Post (At n (pc + 1) (suc h)) (load_text a len x pc m)
  load_text-Post a len x = Post-if (a == 0) fails (goes_on (refl, Holds-memory m at _ _ _))

  pub sized_op-Post : (w : Width) → Post (At n (pc + 1) (suc h)) (sized_op env w pc m)
  unfolding sized_op
  sized_op-Post Width.i8 = load_integer-Post Width.i8
  sized_op-Post Width.i16 = load_integer-Post Width.i16
  sized_op-Post Width.i32 = load_integer-Post Width.i32
  sized_op-Post Width.i64 = load_integer-Post Width.i64
  sized_op-Post Width.u8 = load_unsigned-Post Width.u8
  sized_op-Post Width.u16 = load_unsigned-Post Width.u16
  sized_op-Post Width.u32 = load_unsigned-Post Width.u32
  sized_op-Post Width.u64 = load_unsigned-Post Width.u64
  sized_op-Post Width.string = in_ax _ (λ x. load_text-Post _ _ x)
  sized_op-Post Width.sequence = in_ax _ (λ x. load_text-Post _ _ x)
  sized_op-Post Width.double = in_ax _ (λ x. goes_on (refl, Holds-memory m at _ _ _))
