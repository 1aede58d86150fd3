-- ===== src/Bytecode/Specializer/Choices.antt =====
-- The specializer's choice for a comparison is the one that the interpreter makes when it runs.
use lttng_ust.Common.{◌≡◌, refl, ◌⊎◌, inl, inr, arith, if◌then◌else◌, Option, some, none, get_elem?}
use lttng_ust.Bytecode.{
  Op, Cmp, Operands, EntryType, s64, u64, double, string, star_glob_string, unknown, ptr,
  bytecode_op,
}
use lttng_ust.Bytecode.Interpreter.Compare.{operands_of}
use lttng_ust.Bytecode.Specializer.Insn.{
  opcode, Choice, refused, null, kept, chosen, integer_choice, double_choice, string_choice,
  is_equality, glob_choice, choice,
}
use lttng_ust.Bytecode.Specializer.Moves.{IfChosen}

-- What a static type says of the type of a register. A load of a string or a double leaves the
-- register's type as it was, that of a pointer.
pub data Covers : EntryType → EntryType → Type 0 where
  any : {t : EntryType} → Covers unknown t
  s64_s64 : Covers s64 s64
  s64_u64 : Covers s64 u64
  u64_s64 : Covers u64 s64
  u64_u64 : Covers u64 u64
  double_double : Covers double double
  double_ptr : Covers double ptr
  string_string : Covers string string
  string_ptr : Covers string ptr
  glob_glob : Covers star_glob_string star_glob_string
  ptr_ptr : Covers ptr ptr

-- The number of the operation is its own.
abbrev pub Encoded : Op → Type 0
Encoded op = get_elem? bytecode_op (opcode op) ≡ some (some op)

compare_string-Encoded : (c : Cmp) → Encoded (Op.compare c Operands.string)
unfolding opcode
compare_string-Encoded c = ground arith

compare_s64-Encoded : (c : Cmp) → Encoded (Op.compare c Operands.s64)
unfolding opcode
compare_s64-Encoded c = ground arith

compare_double-Encoded : (c : Cmp) → Encoded (Op.compare c Operands.double)
unfolding opcode
compare_double-Encoded c = ground arith

compare_double_s64-Encoded : (c : Cmp) → Encoded (Op.compare c Operands.double_s64)
unfolding opcode
compare_double_s64-Encoded c = ground arith

compare_s64_double-Encoded : (c : Cmp) → Encoded (Op.compare c Operands.s64_double)
unfolding opcode
compare_s64_double-Encoded c = ground arith

-- Where the interpreter would find operands that it can compare, it is these.
abbrev pub Finds : Cmp → EntryType → EntryType → Operands → Type 0
Finds c ta tb k = (operands_of c ta tb ≡ none) ⊎ (operands_of c ta tb ≡ some k)

IfChosen-all : (P : Operands → Type 0) (h : Choice) → ((k : Operands) → P k) → IfChosen P h
IfChosen-all P refused f = tt
IfChosen-all P null f = tt
IfChosen-all P kept f = tt
IfChosen-all P (chosen k) f = f k

integer-s64 :
    (c : Cmp) {b tb : EntryType} → Covers b tb → IfChosen (Finds c s64 tb) (integer_choice (some b))
unfolding integer_choice operands_of
integer-s64 c any = tt
integer-s64 c s64_s64 = inr refl
integer-s64 c s64_u64 = inr refl
integer-s64 c u64_s64 = inr refl
integer-s64 c u64_u64 = inr refl
integer-s64 c double_double = inr refl
integer-s64 c double_ptr = inl refl
integer-s64 c string_string = inl refl
integer-s64 c string_ptr = inl refl
integer-s64 c glob_glob = inl refl
integer-s64 c ptr_ptr = inl refl

integer-u64 :
    (c : Cmp) {b tb : EntryType} → Covers b tb → IfChosen (Finds c u64 tb) (integer_choice (some b))
unfolding integer_choice operands_of
integer-u64 c any = tt
integer-u64 c s64_s64 = inr refl
integer-u64 c s64_u64 = inr refl
integer-u64 c u64_s64 = inr refl
integer-u64 c u64_u64 = inr refl
integer-u64 c double_double = inr refl
integer-u64 c double_ptr = inl refl
integer-u64 c string_string = inl refl
integer-u64 c string_ptr = inl refl
integer-u64 c glob_glob = inl refl
integer-u64 c ptr_ptr = inl refl

double-double :
    (c : Cmp) {b tb : EntryType}
    → Covers b tb
    → IfChosen (Finds c double tb) (double_choice (some b))
unfolding double_choice operands_of
double-double c any = tt
double-double c s64_s64 = inr refl
double-double c s64_u64 = inr refl
double-double c u64_s64 = inr refl
double-double c u64_u64 = inr refl
double-double c double_double = inr refl
double-double c double_ptr = inl refl
double-double c string_string = inl refl
double-double c string_ptr = inl refl
double-double c glob_glob = inl refl
double-double c ptr_ptr = inl refl

string-string :
    (c : Cmp) {b tb : EntryType}
    → Covers b tb
    → IfChosen (Finds c string tb) (string_choice c (some b))
unfolding string_choice operands_of
string-string c any = tt
string-string c s64_s64 = inl refl
string-string c s64_u64 = inl refl
string-string c u64_s64 = inl refl
string-string c u64_u64 = inl refl
string-string c double_double = inl refl
string-string c double_ptr = inl refl
string-string c string_string = inr refl
string-string c string_ptr = inl refl
string-string Cmp.eq glob_glob = inr refl
string-string Cmp.ne glob_glob = inr refl
string-string Cmp.gt glob_glob = inl refl
string-string Cmp.lt glob_glob = inl refl
string-string Cmp.ge glob_glob = inl refl
string-string Cmp.le glob_glob = inl refl
string-string c ptr_ptr = inl refl

glob-glob :
    (c : Cmp) {b tb : EntryType}
    → operands_of c star_glob_string string ≡ some Operands.star_glob
    → Covers b tb
    → IfChosen (Finds c star_glob_string tb) (glob_choice (some b))
unfolding operands_of
glob-glob c e any = tt
glob-glob c e s64_s64 = inl refl
glob-glob c e s64_u64 = inl refl
glob-glob c e u64_s64 = inl refl
glob-glob c e u64_u64 = inl refl
glob-glob c e double_double = inl refl
glob-glob c e double_ptr = inl refl
glob-glob c e string_string = inr e
glob-glob c e string_ptr = inl refl
glob-glob c e glob_glob = inl refl
glob-glob c e ptr_ptr = inl refl

pub choice-Finds :
    (c : Cmp) {a b ta tb : EntryType}
    → Covers a ta
    → Covers b tb
    → IfChosen (Finds c ta tb) (choice c a (some b))
unfolding choice operands_of
choice-Finds c any h = tt
choice-Finds c s64_s64 h = integer-s64 c h
choice-Finds c s64_u64 h = integer-u64 c h
choice-Finds c u64_s64 h = integer-s64 c h
choice-Finds c u64_u64 h = integer-u64 c h
choice-Finds c double_double h = double-double c h
choice-Finds c double_ptr h = IfChosen-all _ _ (λ k. inl refl)
choice-Finds c string_string h = string-string c h
choice-Finds c string_ptr h = IfChosen-all _ _ (λ k. inl refl)
choice-Finds Cmp.eq glob_glob h = glob-glob Cmp.eq refl h
choice-Finds Cmp.ne glob_glob h = glob-glob Cmp.ne refl h
choice-Finds Cmp.gt glob_glob h = tt
choice-Finds Cmp.lt glob_glob h = tt
choice-Finds Cmp.ge glob_glob h = tt
choice-Finds Cmp.le glob_glob h = tt
choice-Finds c ptr_ptr h = tt

integer-Encoded :
    (c : Cmp) (b : Option EntryType) → IfChosen (λ k. Encoded (Op.compare c k)) (integer_choice b)
unfolding integer_choice
integer-Encoded c none = tt
integer-Encoded c (some s64) = compare_s64-Encoded c
integer-Encoded c (some u64) = compare_s64-Encoded c
integer-Encoded c (some double) = compare_double_s64-Encoded c
integer-Encoded c (some string) = compare_double_s64-Encoded c
integer-Encoded c (some star_glob_string) = compare_double_s64-Encoded c
integer-Encoded c (some unknown) = tt
integer-Encoded c (some ptr) = compare_double_s64-Encoded c

double-Encoded :
    (c : Cmp) (b : Option EntryType) → IfChosen (λ k. Encoded (Op.compare c k)) (double_choice b)
unfolding double_choice
double-Encoded c none = tt
double-Encoded c (some s64) = compare_s64_double-Encoded c
double-Encoded c (some u64) = compare_s64_double-Encoded c
double-Encoded c (some double) = compare_double-Encoded c
double-Encoded c (some string) = compare_double-Encoded c
double-Encoded c (some star_glob_string) = compare_double-Encoded c
double-Encoded c (some unknown) = tt
double-Encoded c (some ptr) = compare_double-Encoded c

-- Only an equality is compared with a pattern.
glob-Encoded :
    (c : Cmp)
    → Encoded (Op.compare c (if is_equality c then Operands.star_glob else Operands.string))
unfolding opcode
glob-Encoded c = ground arith

string-Encoded :
    (c : Cmp) (b : Option EntryType) → IfChosen (λ k. Encoded (Op.compare c k)) (string_choice c b)
unfolding string_choice
string-Encoded c none = tt
string-Encoded c (some s64) = compare_string-Encoded c
string-Encoded c (some u64) = compare_string-Encoded c
string-Encoded c (some double) = compare_string-Encoded c
string-Encoded c (some string) = compare_string-Encoded c
string-Encoded c (some star_glob_string) = glob-Encoded c
string-Encoded c (some unknown) = tt
string-Encoded c (some ptr) = compare_string-Encoded c

glob_choice-if :
    (P : Operands → Type 0) (b : Option EntryType)
    → P Operands.star_glob
    → IfChosen P (glob_choice b)
glob_choice-if P none p = tt
glob_choice-if P (some unknown) p = tt
glob_choice-if P (some s64) p = p
glob_choice-if P (some u64) p = p
glob_choice-if P (some double) p = p
glob_choice-if P (some string) p = p
glob_choice-if P (some star_glob_string) p = p
glob_choice-if P (some ptr) p = p

pub choice-Encoded :
    (c : Cmp) (a : EntryType) (b : Option EntryType)
    → IfChosen (λ k. Encoded (Op.compare c k)) (choice c a b)
unfolding choice opcode
choice-Encoded c s64 b = integer-Encoded c b
choice-Encoded c u64 b = integer-Encoded c b
choice-Encoded c double b = double-Encoded c b
choice-Encoded c string b = string-Encoded c b
choice-Encoded Cmp.eq star_glob_string b =
    glob_choice-if (λ k. Encoded (Op.compare Cmp.eq k)) b refl
choice-Encoded Cmp.ne star_glob_string b =
    glob_choice-if (λ k. Encoded (Op.compare Cmp.ne k)) b refl
choice-Encoded Cmp.gt star_glob_string b = tt
choice-Encoded Cmp.lt star_glob_string b = tt
choice-Encoded Cmp.ge star_glob_string b = tt
choice-Encoded Cmp.le star_glob_string b = tt
choice-Encoded c unknown b = tt
choice-Encoded c ptr b = tt

-- Without a second entry nothing is chosen.
pub choice-none : (P : Operands → Type 0) (c : Cmp) (a : EntryType) → IfChosen P (choice c a none)
unfolding choice integer_choice double_choice string_choice
choice-none P c s64 = tt
choice-none P c u64 = tt
choice-none P c double = tt
choice-none P c string = tt
choice-none P Cmp.eq star_glob_string = tt
choice-none P Cmp.ne star_glob_string = tt
choice-none P Cmp.gt star_glob_string = tt
choice-none P Cmp.lt star_glob_string = tt
choice-none P Cmp.ge star_glob_string = tt
choice-none P Cmp.le star_glob_string = tt
choice-none P c unknown = tt
choice-none P c ptr = tt

pub IfChosen-both :
    (P P' R : Operands → Type 0) (h : Choice)
    → ((k : Operands) → P k → P' k → R k)
    → IfChosen P h
    → IfChosen P' h
    → IfChosen R h
IfChosen-both P P' R refused f p p' = tt
IfChosen-both P P' R null f p p' = tt
IfChosen-both P P' R kept f p p' = tt
IfChosen-both P P' R (chosen k) f p p' = f k p p'
