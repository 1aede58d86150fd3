-- ===== src/Objd.antt =====
-- src/lib/lttng-ust/lttng-ust-abi.c: the table of object descriptors, by which the session daemon
-- names the objects that it creates in the application.
-- The union of an entry keeps `freelist_next` in the low half of the word of `private_data`, as on
-- a little-endian machine; -1 is the largest 32-bit word. A descriptor is an index into the array.
pub mod Free
pub mod Grow
pub mod Alloc
pub mod Release
mod Tests
use lttng_ust.Common.{
  ℕ, ◌+◌, ◌-◌, ◌*◌, ◌%◌, ◌^◌, Bool, true, false, ◌||◌, ◌&&◌, not, List, [], ◌∷◌, ◌++◌, ltb, leb,
  ◌==◌, if◌then◌else◌, length, get_elem?, set, take, replicate, Option, some, none,
}

abbrev pub list_end : ℕ
list_end = 2 ^ 32 - 1

pub record Obj : Type 0 where
  pub private_data : ℕ
  pub ops : ℕ
  pub f_count : ℕ
  pub owner_ref : ℕ
  pub owner : ℕ
  pub name : List ℕ

abbrev pub freelist_next : Obj → ℕ
freelist_next o = o.private_data % 2 ^ 32

abbrev pub set_freelist_next : ℕ → Obj → Obj
set_freelist_next next o = record o {
  private_data = o.private_data - o.private_data % 2 ^ 32 + next;
}

pub record Table : Type 0 where
  pub array : List Obj
  pub len : ℕ
  pub allocated_len : ℕ
  pub freelist_head : ℕ

abbrev pub zero_obj : Obj
zero_obj = record { private_data = 0; ops = 0; f_count = 0; owner_ref = 0; owner = 0; name = [] }

abbrev pub empty_table : Table
empty_table = record { array = []; len = 0; allocated_len = 0; freelist_head = list_end }

-- The fields of a new object: 1 for being allocated and 1 for the reference held. `strncpy` and
-- the NUL after it keep fifteen bytes of the name.
abbrev pub new_obj : ℕ → ℕ → ℕ → List ℕ → Obj
new_obj private_data ops owner name = record {
  private_data = private_data;
  ops = ops;
  f_count = 2;
  owner_ref = 1;
  owner = owner;
  name = take 15 name;
}

-- Twice as many entries, or the first one. `zmalloc` answers whether there is memory.
pub grow : (ℕ → Bool) → Table → Option Table
grow zmalloc t =
    let new_allocated_len = if t.allocated_len == 0 then 1 else t.allocated_len * 2 % 2 ^ 32 in
    if not (ltb t.len t.allocated_len)
    then if zmalloc new_allocated_len
      then some (record t {
        array = t.array ++ replicate (new_allocated_len - t.allocated_len) zero_obj;
        allocated_len = new_allocated_len;
      })
      else none
    else some t

abbrev pub place : ℕ → Obj → Table → Table
place id o t = record t { array = set t.array id o }

abbrev next_of : Option Obj → ℕ
next_of none = list_end
next_of (some o) = freelist_next o

-- The first entry that was never used.
abbrev pub extend : Obj → Option Table → Option (ℕ × Table)
extend new none = none
extend new (some grown) =
    some (grown.len, place grown.len new (record grown { len = (grown.len + 1) % 2 ^ 32 }))

-- The descriptor and the table, or -ENOMEM.
pub objd_alloc : (ℕ → Bool) → Obj → Table → Option (ℕ × Table)
objd_alloc zmalloc new t =
    if not (t.freelist_head == list_end)
    then some (
      t.freelist_head,
      place t.freelist_head new
          (record t { freelist_head = next_of (get_elem? t.array t.freelist_head) }),
    )
    else extend new (grow zmalloc t)

pub objd_get : Table → ℕ → Option Obj
objd_get t id = if leb t.len id then none else elim (get_elem? t.array id) [
  | none ↦ none
  | some o ↦ if o.f_count == 0 then none else some o
]

-- Without an object the assertion stops the program; here, nothing. The assertion that the count
-- is 1, which the caller sees to, is left out.
pub objd_free : ℕ → Table → Table
objd_free id t = elim (objd_get t id) [
  | none ↦ t
  | some o ↦ record (place id (record (set_freelist_next t.freelist_head o) { f_count = 0 }) t) {
    freelist_head = id;
  }
]

-- Without an object the assertion stops the program; here, nothing.
pub objd_ref : ℕ → Table → Table
objd_ref id t = elim (objd_get t id) [
  | none ↦ t
  | some o ↦ place id (record o { f_count = o.f_count + 1 }) t
]

-- The answer 0 is true and -EINVAL is false.
pub record Unref : Type 0 where
  pub ok : Bool
  pub table : Table

abbrev pub drop_owner : Bool → Obj → Obj
drop_owner is_owner o = record o { owner_ref = if is_owner then o.owner_ref - 1 else o.owner_ref }

-- `release` is what the operations of the object do to the table on its release; it finds the
-- object still in the table, with one count.
pub objd_unref : (ℕ → Table → Table) → ℕ → Bool → Table → Unref
objd_unref release id is_owner t = elim (objd_get t id) [
  | none ↦ record { ok = false; table = t }
  | some o ↦
      let counted = record (drop_owner is_owner o) { f_count = o.f_count - 1 } in
      if o.f_count == 1
      then record { ok = false; table = t }
      else if is_owner && o.owner_ref == 0
      then record { ok = false; table = t }
      else if o.f_count - 1 == 1
      then record { ok = true; table = objd_free id (release id (place id counted t)) }
      else record { ok = true; table = place id counted t }
]
