-- ===== src/Bytecode/Specializer/Types.antt =====
-- The static stack of the specializer (`struct vstack` of src/lib/lttng-ust/lttng-bytecode.h), the
-- types of fields, and what becomes of the load of a field or an element.
use lttng_ust.Common.{ℕ, ◌==◌, Bool, false, if◌then◌else◌, List, [], ◌∷◌, Option, some, none}
use lttng_ust.Strutils.{Bytes}
use lttng_ust.Bytecode.{Op, load_field_sized, Root, Width, EntryType}

-- `enum object_type`
pub data ObjectType : Type 0 where
  s8 s16 s32 s64 u8 u16 u32 u64 : ObjectType
  signed_enum unsigned_enum double string string_sequence sequence array struct variant dynamic :
      ObjectType

-- `enum load_type`: a root, or an object.
pub data LoadType : Type 0 where
  root : Root → LoadType
  object : LoadType

pub record IntegerType : Type 0 where
  pub size : ℕ
  pub signedness : Bool
  pub reverse_byte_order : Bool

-- The elements of an array or a sequence: integers, or something else.
pub data Elem : Type 0 where
  integers : IntegerType → Elem
  nested : Elem

-- The types of fields as the specializer tells them apart. An enumeration has its container; an array
-- its elements, its length and whether it is text.
pub data FieldType : Type 0 where
  integer : IntegerType → FieldType
  enum : IntegerType → FieldType
  array : Elem → ℕ → Bool → FieldType
  sequence : Elem → Bool → FieldType
  string float dynamic other : FieldType

pub record Field : Type 0 where
  pub name : Bytes
  pub nofilter : Bool
  pub type : FieldType

-- `struct vstack_load`
pub record Load : Type 0 where
  pub type : LoadType
  pub object_type : ObjectType
  pub field : Option Field
  pub rev_bo : Bool

-- `struct vstack_entry`
pub record VEntry : Type 0 where
  pub type : EntryType
  pub load : Load

-- `struct vstack`: the entries from the top down, and those above the top, which keep what they held.
pub record VStack : Type 0 where
  pub live : List VEntry
  pub dead : List VEntry

abbrev pub vstack_pushed : VStack → List VEntry → Option VStack
vstack_pushed s [] = none
vstack_pushed s (x ∷ dead) = some (record { live = x ∷ s.live; dead = dead })

unfoldable pub vstack_push : VStack → Option VStack
vstack_push s = vstack_pushed s s.dead

-- The type that a load leaves, and the instruction that is written over it, if one is.
abbrev pub Loaded : Type 0
Loaded = Option (EntryType × Option Op)

abbrev unless_reversed : Bool → Width → Option Op
unless_reversed rev_bo w = if rev_bo then none else some (load_field_sized w)

unfoldable pub loaded : Bool → ObjectType → Loaded
loaded rev_bo ObjectType.s8 = some (EntryType.s64, unless_reversed rev_bo Width.i8)
loaded rev_bo ObjectType.s16 = some (EntryType.s64, unless_reversed rev_bo Width.i16)
loaded rev_bo ObjectType.s32 = some (EntryType.s64, unless_reversed rev_bo Width.i32)
loaded rev_bo ObjectType.s64 = some (EntryType.s64, unless_reversed rev_bo Width.i64)
loaded rev_bo ObjectType.signed_enum = some (EntryType.ptr, none)
loaded rev_bo ObjectType.u8 = some (EntryType.u64, some (load_field_sized Width.u8))
loaded rev_bo ObjectType.u16 = some (EntryType.u64, unless_reversed rev_bo Width.u16)
loaded rev_bo ObjectType.u32 = some (EntryType.u64, unless_reversed rev_bo Width.u32)
loaded rev_bo ObjectType.u64 = some (EntryType.u64, unless_reversed rev_bo Width.u64)
loaded rev_bo ObjectType.unsigned_enum = some (EntryType.ptr, none)
loaded rev_bo ObjectType.double = some (EntryType.double, some (load_field_sized Width.double))
loaded rev_bo ObjectType.string = some (EntryType.string, some (load_field_sized Width.string))
loaded rev_bo ObjectType.string_sequence =
    some (EntryType.string, some (load_field_sized Width.sequence))
loaded rev_bo ObjectType.dynamic = some (EntryType.unknown, none)
loaded rev_bo _ = none

abbrev loaded_by : Load → LoadType → Loaded
loaded_by load object = loaded load.rev_bo load.object_type
loaded_by load (root _) = none

unfoldable pub specialize_load_field : VEntry → Loaded
specialize_load_field x = loaded_by x.load x.load.type

unfoldable pub specialize_get_index_object_type : Bool → ℕ → Option ObjectType
specialize_get_index_object_type signedness elem_len =
    if elem_len == 8
    then some (if signedness then ObjectType.s8 else ObjectType.u8)
    else if elem_len == 16
    then some (if signedness then ObjectType.s16 else ObjectType.u16)
    else if elem_len == 32
    then some (if signedness then ObjectType.s32 else ObjectType.u32)
    else if elem_len == 64
    then some (if signedness then ObjectType.s64 else ObjectType.u64)
    else none

-- An object of a type without a byte order keeps what the entry held.
abbrev an_object : ObjectType → Load → Option Load
an_object t load = some (record load { type = object; object_type = t })

abbrev elements : Bool → Bool → ObjectType → Field → Load → Option Load
elements is_context is_text t field load =
    if is_context
    then an_object ObjectType.string load
    else if is_text
    then an_object ObjectType.string_sequence load
    else an_object t (record load { field = some field })

abbrev object_of : Bool → Field → Load → FieldType → Option Load
object_of is_context field load (FieldType.integer i) =
    an_object (if i.signedness then ObjectType.s64 else ObjectType.u64)
      (record load { rev_bo = false })
object_of is_context field load (FieldType.enum i) =
    an_object (if i.signedness then ObjectType.signed_enum else ObjectType.unsigned_enum)
      (record load { rev_bo = false })
object_of is_context field load (FieldType.array (integers i) n is_text) =
    elements is_context is_text ObjectType.array field load
object_of is_context field load (FieldType.sequence (integers i) is_text) =
    elements is_context is_text ObjectType.sequence field load
object_of is_context field load FieldType.string = an_object ObjectType.string load
object_of is_context field load FieldType.float = an_object ObjectType.double load
object_of is_context field load FieldType.dynamic = an_object ObjectType.dynamic load
object_of is_context field load _ = none

unfoldable pub specialize_load_object : Bool → Field → Load → Option Load
specialize_load_object is_context field load = object_of is_context field load field.type
