-- ===== src/RingBuffer/Create/Tests.antt =====
-- Runs at the edges of the range of sizes.
use lttng_ust.Common.{◌<◌, ◌≤◌, ◌-◌, ◌≡◌, refl, true, arith, ◌*◌, ◌^◌}
use lttng_ust.RingBuffer.State.{Config, IsChannel, overwrite}
use lttng_ust.RingBuffer.Ids.{subbuffer_id_check_index}
use lttng_ust.RingBuffer.Order.{lttng_ust_fls, fls_shifted, get_count_order, lttng_ust_fls-bounds}
use lttng_ust.RingBuffer.Create.{
  channel_backend_init, is_pow2_below, sized, channel_backend_init-IsChannel,
}

abbrev config : Config
config = record {
  mode = overwrite;
  oops_consistency = true;
  timestamp_bits = 27;
  natural_align = true;
  subbuffer_header_size = 56;
}

-- Four sub-buffers of 4 KiB.
get_count_order-small : (sized config 4096 4).buf_size_order ≡ 14
unfolding get_count_order lttng_ust_fls fls_shifted
get_count_order-small = refl

-- Two sub-buffers of 2 GiB: the order of the buffer's size is that of 0.
get_count_order-large : (sized config (2 ^ 31) 2).buf_size_order ≡ 2 ^ 32 - 1
unfolding get_count_order lttng_ust_fls fls_shifted
get_count_order-large = refl

lttng_ust_fls-bounds_example :
    (0 < lttng_ust_fls 4097) × (2 ^ lttng_ust_fls 4097 ≤ 4097 * 2) × (4097 < 2 ^ lttng_ust_fls 4097)
lttng_ust_fls-bounds_example = lttng_ust_fls-bounds 4097 (omega arith) (omega arith)

channel_backend_init-IsChannel_example : IsChannel (sized config 4096 4)
unfolding channel_backend_init is_pow2_below subbuffer_id_check_index
channel_backend_init-IsChannel_example =
    channel_backend_init-IsChannel config 4096 4096 4 (omega arith) refl
