-- ===== src/RingBuffer/Ids.antt =====
-- Sub-buffer identifiers (src/common/ringbuffer/backend_internal.h) on a 64-bit machine. In overwrite
-- mode the top 31 bits hold the produced-buffer count, bit 32 the `noref` flag, and the low 32 bits
-- the index of the backend pages; in discard mode the whole word is the index.
pub mod Fields
use lttng_ust.Common.{ℕ, ◌+◌, ◌-◌, ◌*◌, ◌/◌, ◌%◌, ◌^◌, Bool, true, false, ◌==◌, if◌then◌else◌, ltb}
use lttng_ust.Common.Words.{word_mod}
use lttng_ust.RingBuffer.State.{Mode, overwrite, discard}

-- `SB_ID_NOREF_SHIFT` and `SB_ID_OFFSET_SHIFT`
abbrev pub noref_bit : ℕ
noref_bit = 2 ^ 32

abbrev pub offset_bit : ℕ
offset_bit = 2 ^ 33

unfoldable pub subbuffer_id : Mode → ℕ → Bool → ℕ → ℕ
subbuffer_id overwrite offset noref index =
    offset * offset_bit % word_mod + (if noref then noref_bit else 0) + index
subbuffer_id discard offset noref index = index

-- Both sides keep their top 31 bits alone.
unfoldable pub subbuffer_id_compare_offset : ℕ → ℕ → Bool
subbuffer_id_compare_offset id offset = id - id % offset_bit == offset * offset_bit % word_mod

unfoldable pub subbuffer_id_get_index : Mode → ℕ → ℕ
subbuffer_id_get_index overwrite id = id % noref_bit
subbuffer_id_get_index discard id = id

abbrev pub noref_flag : ℕ → Bool
noref_flag id = id / noref_bit % 2 == 1

unfoldable pub subbuffer_id_is_noref : Mode → ℕ → Bool
subbuffer_id_is_noref overwrite id = noref_flag id
subbuffer_id_is_noref discard id = true

unfoldable pub subbuffer_id_set_noref : Mode → ℕ → ℕ
subbuffer_id_set_noref overwrite id = if noref_flag id then id else id + noref_bit
subbuffer_id_set_noref discard id = id

unfoldable pub subbuffer_id_set_noref_offset : Mode → ℕ → ℕ → ℕ
subbuffer_id_set_noref_offset overwrite id offset =
    id % noref_bit + noref_bit + offset * offset_bit % word_mod
subbuffer_id_set_noref_offset discard id offset = id

unfoldable pub subbuffer_id_clear_noref : Mode → ℕ → ℕ
subbuffer_id_clear_noref overwrite id = if noref_flag id then id - noref_bit else id
subbuffer_id_clear_noref discard id = id

-- False stands for -EPERM.
unfoldable pub subbuffer_id_check_index : Mode → ℕ → Bool
subbuffer_id_check_index overwrite num_subbuf = if ltb (2 ^ 32) num_subbuf then false else true
subbuffer_id_check_index discard num_subbuf = true
