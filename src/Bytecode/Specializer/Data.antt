-- ===== src/Bytecode/Specializer/Data.antt =====
-- The data area of a program: `bytecode_reserve_data` and `bytecode_push_data` of
-- src/lib/lttng-ust/lttng-bytecode-specialize.c.
use lttng_ust.Common.{
  ℕ, suc, ◌+◌, ◌-◌, ◌*◌, ◌^◌, max, ◌++◌, Bool, if◌then◌else◌, ltb, List, [], ◌∷◌, Option, some,
  none, length, replicate, set,
}
use lttng_ust.RingBuffer.Order.{get_count_order}
use lttng_ust.RingBuffer.Reserve.{offset_align}

abbrev pub bytecode_max_data_len : ℕ
bytecode_max_data_len = 65536

-- The data members of `struct bytecode_runtime`; `bytes` is the whole allocation.
pub record Area : Type 0 where
  pub data_len : ℕ
  pub data_alloc_len : ℕ
  pub bytes : List ℕ

pub data Reserved : Type 0 where
  einval enomem : Reserved
  reserved : ℕ → Area → Reserved

-- `data_alloc_len` once `realloc` has given more: the next power of two, or twice as much as before.
unfoldable pub new_alloc_len : ℕ → ℕ → ℕ
new_alloc_len new_len old_alloc_len = max (2 ^ get_count_order new_len) (old_alloc_len * 2)

abbrev pub enlarged : ℕ → Area → Area
enlarged n a = record {
  data_len = a.data_len;
  data_alloc_len = n;
  bytes = a.bytes ++ replicate (n - a.data_alloc_len) 0;
}

abbrev pub taken : ℕ → ℕ → Area → Reserved
taken padding len a =
    reserved (a.data_len + padding) (record a { data_len = a.data_len + padding + len })

-- `realloc` gives the memory asked for where `alloc` says so.
unfoldable pub bytecode_reserve_data : (ℕ → Bool) → Area → ℕ → ℕ → Reserved
bytecode_reserve_data alloc a align len =
    let padding = offset_align a.data_len align in
    let new_len = a.data_len + padding + len in
    let n = new_alloc_len new_len a.data_alloc_len in
    if ltb bytecode_max_data_len new_len
    then einval
    else if ltb a.data_alloc_len new_len
    then if alloc n then taken padding len (enlarged n a) else enomem
    else taken padding len a

-- `memcpy` into the data, one byte after another.
unfoldable pub write : List ℕ → ℕ → List ℕ → List ℕ
write bytes i [] = bytes
write bytes i (b ∷ p) = write (set bytes i b) (suc i) p

-- Every error is `-ENOMEM`, here `none`.
abbrev pub pushed_data : List ℕ → Reserved → Option (ℕ × Area)
pushed_data p einval = none
pushed_data p enomem = none
pushed_data p (reserved offset a) = some (offset, record a { bytes = write a.bytes offset p })

unfoldable pub bytecode_push_data : (ℕ → Bool) → Area → List ℕ → ℕ → Option (ℕ × Area)
bytecode_push_data alloc a p align = pushed_data p (bytecode_reserve_data alloc a align (length p))
