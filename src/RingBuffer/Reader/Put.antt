-- ===== src/RingBuffer/Reader/Put.antt =====
-- `lib_ring_buffer_put_subbuf` and the pages in overwrite mode.
use mathlib.Core.List.{Perm}
use lttng_ust.Common.{ℕ, ◌≡◌, true, false, some, get_elem?, modify, arith}
use lttng_ust.Common.Words.{◌+w◌}
use lttng_ust.RingBuffer.State.{overwrite, Channel, Buffer, Pages}
use lttng_ust.RingBuffer.Offsets.{subbuf_index, buf_trunc_val}
use lttng_ust.RingBuffer.Ids.{subbuffer_id_set_noref, subbuffer_id_get_index}
use lttng_ust.RingBuffer.Ids.Fields.{set_noref-index}
use lttng_ust.RingBuffer.Backend.{updated, met, exchange_reader, update_read_sb_index}
use lttng_ust.RingBuffer.Backend.Exchange.{
  Exchange, pages_in_use, page_index, update_read_sb_index-perm,
}
use lttng_ust.RingBuffer.Reader.{put_subbuf, put_held}

-- The buffer that `put_held` hands to the exchange.
abbrev pub counted : ℕ → Pages → Buffer → Buffer
counted bindex p buf = record buf {
  get_subbuf = false;
  records_read = buf.records_read +w p.records_unread;
  pages = modify buf.pages bindex (λ q. record q { records_unread = 0 });
  buf_rsb = subbuffer_id_set_noref overwrite buf.buf_rsb;
}

put_subbuf-exchange :
    (chan : Channel) (interfere : ℕ → ℕ) (buf : Buffer) (p : Pages)
    → chan.config.mode ≡ overwrite
    → buf.get_subbuf ≡ true
    → let bindex = subbuffer_id_get_index overwrite buf.buf_rsb in
      get_elem? buf.pages bindex ≡ some p
      → put_subbuf chan interfere buf
        ≡ updated (counted bindex p buf) (
            update_read_sb_index overwrite
              (subbuf_index buf.get_subbuf_consumed chan)
              (buf_trunc_val buf.get_subbuf_consumed chan)
              interfere
              (counted bindex p buf))
unfolding put_subbuf put_held
put_subbuf-exchange chan interfere buf p h taken found = ground arith

-- The exchange is of the table and the reader's identifier only.
update-keeps :
    (idx count : ℕ) (interfere : ℕ → ℕ) (buf : Buffer)
    → let buf' = updated buf (update_read_sb_index overwrite idx count interfere buf) in
      (buf'.get_subbuf ≡ buf.get_subbuf) × (buf'.records_read ≡ buf.records_read)
unfolding update_read_sb_index exchange_reader
update-keeps idx count interfere buf = ground arith

-- What putting the sub-buffer with the page `p` back does to `buf`, where the table's entry is
-- `interfere` of what was read when the exchange comes.
pub record Put (chan : Channel) (interfere : ℕ → ℕ) (p : Pages) (buf buf' : Buffer) : Type 0 where
  pub released : buf'.get_subbuf ≡ false
  pub records : buf'.records_read ≡ buf.records_read +w p.records_unread
  pub permuted :
      Perm
        (pages_in_use (met (subbuf_index buf.get_subbuf_consumed chan) interfere buf))
        (pages_in_use buf')
  pub exchange :
      Exchange
        (subbuf_index buf.get_subbuf_consumed chan)
        (buf_trunc_val buf.get_subbuf_consumed chan)
        interfere
        (counted (subbuffer_id_get_index overwrite buf.buf_rsb) p buf)
        buf'

-- Let the reader hold a sub-buffer whose page is found, in overwrite mode, and let other threads
-- make anything of the table's entry once it is read. Putting the sub-buffer back releases it, adds
-- its unread records to those read, and leaves the pages as the others have left them, up to a
-- permutation among the reader and the writer's table. An entry that is unreferenced and has the
-- lap's count, and that the others have left as it was read, becomes the reader's, and its place in
-- the table gets the page that was held; otherwise the table stays as the others have left it, and
-- the reader keeps the page.
pub put_subbuf-perm :
    (chan : Channel) (interfere : ℕ → ℕ) (buf : Buffer) (p : Pages)
    → chan.config.mode ≡ overwrite
    → buf.get_subbuf ≡ true
    → get_elem? buf.pages (subbuffer_id_get_index overwrite buf.buf_rsb) ≡ some p
    → Put chan interfere p buf (put_subbuf chan interfere buf)
put_subbuf-perm chan interfere buf p h taken found =
    let b = counted (subbuffer_id_get_index overwrite buf.buf_rsb) p buf in
    let idx = subbuf_index buf.get_subbuf_consumed chan in
    let count = buf_trunc_val buf.get_subbuf_consumed chan in
    let keeps : page_index (subbuffer_id_set_noref overwrite buf.buf_rsb) ≡ page_index buf.buf_rsb =
      set_noref-index buf.buf_rsb in
    let (released, records) = update-keeps idx count interfere b in
    let (permuted, exchange) = update_read_sb_index-perm idx count interfere b in
    rw (put_subbuf-exchange chan interfere buf p h taken found) (record {
      released = released;
      records = records;
      permuted = rw (← keeps) permuted;
      exchange = exchange;
    })
