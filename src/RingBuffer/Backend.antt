-- ===== src/RingBuffer/Backend.antt =====
-- The operations of backend_internal.h on the tables of sub-buffers. A pointer that `shmp_index`
-- finds out of bounds is null, and the operation then does nothing.
pub mod Exchange
use lttng_ust.Common.{
  ℕ, suc, ◌+◌, ◌≡◌, Bool, true, false, Option, some, none, List, get_elem?, set, modify, ◌==◌,
  if◌then◌else◌, not, ◌&&◌, ◌||◌,
}
use lttng_ust.Common.Words.{◌+w◌}
use lttng_ust.RingBuffer.State.{Mode, overwrite, discard, Buffer, Pages, Channel}
use lttng_ust.RingBuffer.Ids.{
  subbuffer_id_get_index, subbuffer_id_is_noref, subbuffer_id_compare_offset,
  subbuffer_id_set_noref_offset, subbuffer_id_clear_noref, subbuffer_id_set_noref,
}

-- The backend pages that the writer's entry `idx` names.
unfoldable pub writer_pages : Mode → Buffer → ℕ → Option Pages
writer_pages mode buf idx = elim (get_elem? buf.buf_wsb idx) [
  | none ↦ none
  | some id ↦ get_elem? buf.pages (subbuffer_id_get_index mode id)
]

unfoldable pub subbuffer_set_data_size : Mode → ℕ → ℕ → Buffer → Buffer
subbuffer_set_data_size mode idx data_size buf = elim (get_elem? buf.buf_wsb idx) [
  | none ↦ buf
  | some id ↦ record buf {
    pages =
        modify buf.pages (subbuffer_id_get_index mode id) (λ p. record p { data_size = data_size });
  }
]

unfoldable pub subbuffer_get_data_size : Mode → Buffer → ℕ → ℕ
unfolding writer_pages
subbuffer_get_data_size mode buf idx = elim (writer_pages mode buf idx) [
  | none ↦ 0
  | some p ↦ p.data_size
]

unfoldable pub subbuffer_inc_packet_count : ℕ → Buffer → Buffer
subbuffer_inc_packet_count idx buf = record buf {
  buf_cnt = modify buf.buf_cnt idx (λ seq_cnt. seq_cnt +w 1);
}

-- The loop's last round; a round whose exchange fails changes nothing.
unfoldable pub clear_noref : Mode → ℕ → Buffer → Buffer
clear_noref discard idx buf = buf
clear_noref overwrite idx buf = record buf {
  buf_wsb = modify buf.buf_wsb idx (subbuffer_id_clear_noref overwrite);
}

unfoldable pub set_noref_offset : Mode → ℕ → ℕ → Buffer → Buffer
set_noref_offset discard idx offset buf = buf
set_noref_offset overwrite idx offset buf = record buf {
  buf_wsb = modify buf.buf_wsb idx (λ id. subbuffer_id_set_noref_offset overwrite id offset);
}

-- What `update_read_sb_index` answers.
pub data Update : Type 0 where
  exchanged : Buffer → Update
  eagain : Buffer → Update
  eperm : Update

-- The buffer after an update, whatever its answer.
abbrev pub updated : Buffer → Update → Buffer
updated buf (exchanged buf') = buf'
updated buf (eagain buf') = buf'
updated buf eperm = buf

-- What other threads make of the entry `idx` of the writer's table.
abbrev pub met : ℕ → (ℕ → ℕ) → Buffer → Buffer
met idx interfere buf = record buf { buf_wsb = modify buf.buf_wsb idx interfere }

-- The overwrite branch, for the entry `old_id` that was read. `buf` is the buffer as the exchange
-- meets it, and `wsb_now` the entry in it: a writer may have written there since.
unfoldable pub exchange_reader : ℕ → ℕ → ℕ → ℕ → Buffer → Update
exchange_reader consumed_idx consumed_count old_id wsb_now buf =
    let rsb = subbuffer_id_set_noref_offset overwrite buf.buf_rsb consumed_count in
    if not (subbuffer_id_is_noref overwrite old_id)
      || not (subbuffer_id_compare_offset old_id consumed_count)
    then eagain buf
    else if wsb_now == old_id
    then exchanged (record buf { buf_wsb = set buf.buf_wsb consumed_idx rsb; buf_rsb = old_id })
    else eagain (record buf { buf_rsb = rsb })

-- `interfere` is what other threads make of the entry once it is read; the identity when nothing
-- intervenes. In discard mode no thread writes the entries.
unfoldable pub update_read_sb_index : Mode → ℕ → ℕ → (ℕ → ℕ) → Buffer → Update
update_read_sb_index mode consumed_idx consumed_count interfere buf =
    elim (get_elem? buf.buf_wsb consumed_idx) [
      | none ↦ eperm
      | some id ↦ elim mode [
        | overwrite ↦
            exchange_reader consumed_idx consumed_count id (interfere id)
              (met consumed_idx interfere buf)
        | discard ↦ exchanged (record buf { buf_rsb = id })
      ]
    ]
