-- ===== src/RingBuffer/Ids/Fields.antt =====
-- The fields of a sub-buffer identifier in overwrite mode.
use lttng_ust.Common.{ℕ, ◌%◌, ◌^◌, ◌<◌, ◌≡◌, ◌↔◌, Bool, true, false, arith}
use lttng_ust.RingBuffer.State.{overwrite}
use lttng_ust.RingBuffer.Ids.{
  subbuffer_id, subbuffer_id_compare_offset, subbuffer_id_get_index, subbuffer_id_is_noref,
  subbuffer_id_set_noref, subbuffer_id_set_noref_offset, subbuffer_id_clear_noref,
}

-- An identifier gives back the index, the flag and the offset count that it was made of, where they
-- fit their fields.
pub subbuffer_id_fields :
    (offset : ℕ) (noref : Bool) (index : ℕ)
    → offset < 2 ^ 31
    → index < 2 ^ 32
    → let id = subbuffer_id overwrite offset noref index in
      (subbuffer_id_get_index overwrite id ≡ index)
      × (subbuffer_id_is_noref overwrite id ≡ noref)
      × ((o : ℕ) → o < 2 ^ 31 → (subbuffer_id_compare_offset id o ≡ true) ↔ (o ≡ offset))
unfolding subbuffer_id subbuffer_id_get_index subbuffer_id_is_noref subbuffer_id_compare_offset
subbuffer_id_fields offset true index ho hi = (ground arith, ground arith, λ o hx. ground arith)
subbuffer_id_fields offset false index ho hi = (ground arith, ground arith, λ o hx. ground arith)

-- The three updates of the flag and the offset keep the index.
pub set_noref-index : (id : ℕ) → subbuffer_id_set_noref overwrite id % 2 ^ 32 ≡ id % 2 ^ 32
unfolding subbuffer_id_set_noref
set_noref-index id = ground arith

pub clear_noref-index : (id : ℕ) → subbuffer_id_clear_noref overwrite id % 2 ^ 32 ≡ id % 2 ^ 32
unfolding subbuffer_id_clear_noref
clear_noref-index id = ground arith

pub set_noref_offset-index :
    (id offset : ℕ) → subbuffer_id_set_noref_offset overwrite id offset % 2 ^ 32 ≡ id % 2 ^ 32
unfolding subbuffer_id_set_noref_offset
set_noref_offset-index id offset = omega arith
