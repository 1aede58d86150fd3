-- ===== src/Bytecode/Specializer/Lookup.antt =====
-- The resolution of symbols and indexes by the specializer: `specialize_get_index` and the look-ups
-- of contexts, application contexts and payload fields.
use lttng_ust.Common.{
  ℕ, ◌+◌, ◌*◌, ◌/◌, ◌%◌, ◌^◌, suc, ◌==◌, leb, Bool, true, false, if◌then◌else◌, List, [], ◌∷◌, ◌++◌,
  Option, some, none, length, get_elem?, take, drop,
}
use lttng_ust.Strutils.{Bytes}
use lttng_ust.Bytecode.{Root}
use lttng_ust.Bytecode.Specializer.Types.{
  ObjectType, LoadType, root, object, IntegerType, integers, FieldType, Field, Load,
  specialize_get_index_object_type, specialize_load_object,
}

-- `struct bytecode_get_index_data`
pub record GetIndexData : Type 0 where
  pub offset : ℕ
  pub ctx_index : ℕ
  pub array_len : ℕ
  pub field : Option Field
  pub elem_len : ℕ
  pub elem_type : ObjectType
  pub elem_rev_bo : Bool

-- After `memset`.
abbrev pub zeroed : GetIndexData
zeroed = record {
  offset = 0;
  ctx_index = 0;
  array_len = 0;
  field = none;
  elem_len = 0;
  elem_type = ObjectType.s8;
  elem_rev_bo = false;
}

-- The names and types of the fields of a context: `none` is one that is allocated, but has no name yet.
abbrev pub Contexts : Type 0
Contexts = List (Option Field)

-- What the pass calls and reads: memory, the layout of `struct bytecode_get_index_data`, the symbol
-- at an offset behind the code, the fields of the event, and the addition of an application context.
pub record Event : Type 0 where
  pub alloc : ℕ → Bool
  pub image : GetIndexData → List ℕ
  pub symbol : ℕ → Bytes
  pub fields : List Field
  pub add_app_context : Bytes → Contexts → Option Contexts

abbrev pub same_bytes : Bytes → Bytes → Bool
same_bytes [] [] = true
same_bytes (c ∷ p) (d ∷ q) = let rest = same_bytes p q in if c == d then rest else false
same_bytes _ _ = false

-- The entry at an index, as the data that the interpreter reads: the type of the elements is known.
abbrev element : ℕ → IntegerType → ℕ → Load → ObjectType → GetIndexData × Load
element index i array_len load t = (
  record zeroed {
    offset = index * (i.size / 8) % 2 ^ 64;
    array_len = array_len;
    elem_type = t;
    elem_len = i.size;
    elem_rev_bo = i.reverse_byte_order;
  },
  record load { object_type = t; rev_bo = i.reverse_byte_order },
)

abbrev element_of : ℕ → IntegerType → ℕ → Load → Option ObjectType → Option (GetIndexData × Load)
element_of index i array_len load none = none
element_of index i array_len load (some t) = some (element index i array_len load t)

abbrev integer_at : ℕ → IntegerType → ℕ → Load → Option (GetIndexData × Load)
integer_at index i array_len load =
    element_of index i array_len load (specialize_get_index_object_type i.signedness i.size)

-- An index into an array is inside it; one into a sequence is tested when the program runs.
abbrev array_at : ℕ → Load → FieldType → Option (GetIndexData × Load)
array_at index load (FieldType.array (integers i) n _) =
    if leb n index then none else integer_at index i (n * (i.size / 8) % 2 ^ 32) load
array_at index load _ = none

abbrev sequence_at : ℕ → Load → FieldType → Option (GetIndexData × Load)
sequence_at index load (FieldType.sequence (integers i) _) = integer_at index i 0 load
sequence_at index load _ = none

-- The field of an array or a sequence is known.
abbrev indexed : ℕ → Load → ObjectType → Option Field → Option (GetIndexData × Load)
indexed index load ObjectType.array (some f) = array_at index load f.type
indexed index load ObjectType.sequence (some f) = sequence_at index load f.type
indexed index load _ _ = none

abbrev indexed_by : ℕ → Load → LoadType → Option (GetIndexData × Load)
indexed_by index load object = indexed index load load.object_type load.field
indexed_by index load (root _) = none

-- `specialize_get_index` up to the data that it stores.
unfoldable pub specialize_get_index : ℕ → Load → Option (GetIndexData × Load)
specialize_get_index index load = indexed_by index load load.type

-- `lttng_get_context_index`: a name may have a prefix `$ctx.`.
abbrev ctx_prefix : Bytes
ctx_prefix = b'$' ∷ b'c' ∷ b't' ∷ b'x' ∷ b'.' ∷ []

abbrev subname : Bytes → Bytes
subname name = if same_bytes (take 5 name) ctx_prefix then drop 5 name else name

abbrev has_name : Bytes → Option Field → Bool
has_name name none = false
has_name name (some f) = same_bytes f.name name

unfoldable index_from : ℕ → Bytes → Contexts → Option ℕ
index_from i name [] = none
index_from i name (f ∷ ctx) =
    let rest = index_from (suc i) name ctx in if has_name name f then some i else rest

unfoldable pub lttng_get_context_index : Contexts → Bytes → Option ℕ
unfolding index_from
lttng_get_context_index ctx name = index_from 0 (subname name) ctx

-- A symbol looked up: the data and the entry of what it names.
abbrev gid_of : ℕ → ℕ → Field → Load → GetIndexData × Load
gid_of offset ctx_index f load = (
  record zeroed {
    offset = offset;
    ctx_index = ctx_index;
    elem_type = load.object_type;
    elem_rev_bo = load.rev_bo;
    field = some f;
  },
  load,
)

abbrev looked_up : ℕ → ℕ → Field → Option Load → Option (GetIndexData × Load)
looked_up offset ctx_index f none = none
looked_up offset ctx_index f (some load) = some (gid_of offset ctx_index f load)

abbrev context_at : ℕ → Load → Option (Option Field) → Option (GetIndexData × Load)
context_at i load (some (some f)) = looked_up 0 i f (specialize_load_object true f load)
context_at i load _ = none

abbrev context_found : Contexts → Load → Option ℕ → Option (GetIndexData × Load)
context_found ctx load none = none
context_found ctx load (some i) = context_at i load (get_elem? ctx i)

unfoldable pub specialize_context_lookup : Contexts → Bytes → Load → Option (GetIndexData × Load)
specialize_context_lookup ctx name load = context_found ctx load (lttng_get_context_index ctx name)

-- `specialize_app_context_lookup`: the context is added where it is not there yet, and looked for again.
abbrev app_prefix : Bytes
app_prefix = b'$' ∷ b'a' ∷ b'p' ∷ b'p' ∷ b'.' ∷ []

abbrev with_contexts :
    Contexts → Option (GetIndexData × Load) → Option (Contexts × GetIndexData × Load)
with_contexts ctx none = none
with_contexts ctx (some (gid, load)) = some (ctx, gid, load)

abbrev app_added : Bytes → Load → Option Contexts → Option (Contexts × GetIndexData × Load)
app_added name load none = none
app_added name load (some ctx) =
    with_contexts ctx (context_found ctx load (lttng_get_context_index ctx name))

abbrev app_found :
    Event → Contexts → Bytes → Load → Option ℕ → Option (Contexts × GetIndexData × Load)
app_found ev ctx name load none = app_added name load (ev.add_app_context name ctx)
app_found ev ctx name load (some i) = with_contexts ctx (context_at i load (get_elem? ctx i))

unfoldable pub specialize_app_context_lookup :
    Event → Contexts → Bytes → Load → Option (Contexts × GetIndexData × Load)
specialize_app_context_lookup ev ctx orig_name load =
    let name = app_prefix ++ orig_name in
    if ev.alloc (length name + 1)
    then app_found ev ctx name load (lttng_get_context_index ctx name)
    else none

-- The place that a field takes on the interpreter's stack.
unfoldable pub field_size : FieldType → Option ℕ
field_size (FieldType.integer i) = some 8
field_size (FieldType.enum i) = some 8
field_size (FieldType.array e n t) = some 16
field_size (FieldType.sequence e t) = some 16
field_size FieldType.string = some 8
field_size FieldType.float = some 8
field_size _ = none

abbrev behind : Option ℕ → (ℕ → Option (ℕ × Field)) → Option (ℕ × Field)
behind none f = none
behind (some n) f = f n

-- The loop over the fields: the field of a name, and its offset.
unfoldable pub payload_from : Bytes → ℕ → List Field → Option (ℕ × Field)
payload_from name field_offset [] = none
payload_from name field_offset (f ∷ fields) =
    let skip = payload_from name field_offset fields in
    let next : ℕ → Option (ℕ × Field) =
      λ n. payload_from name ((field_offset + n) % 2 ^ 32) fields in
    if f.nofilter
    then skip
    else if same_bytes f.name name
    then some (field_offset, f)
    else behind (field_size f.type) next

abbrev payload_found : Load → Option (ℕ × Field) → Option (GetIndexData × Load)
payload_found load none = none
payload_found load (some (offset, f)) = looked_up offset 0 f (specialize_load_object false f load)

unfoldable pub specialize_payload_lookup : List Field → Bytes → Load → Option (GetIndexData × Load)
specialize_payload_lookup fields name load = payload_found load (payload_from name 0 fields)

-- The look-up of a symbol in what the top stands for; an object has no fields.
unfoldable pub specialize_symbol :
    Event → Contexts → Bytes → Load → LoadType → Option (Contexts × GetIndexData × Load)
specialize_symbol ev ctx name load object = none
specialize_symbol ev ctx name load (root Root.context) =
    with_contexts ctx (specialize_context_lookup ctx name load)
specialize_symbol ev ctx name load (root Root.app_context) =
    specialize_app_context_lookup ev ctx name load
specialize_symbol ev ctx name load (root Root.payload) =
    with_contexts ctx (specialize_payload_lookup ev.fields name load)
