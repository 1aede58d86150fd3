-- ===== src/Lib.antt =====
-- A model of parts of LTTng-UST, the user-space tracer, and proofs about it.
--
-- The tracer is a library in the traced application. A tracepoint calls its probes, whose event
-- records go through a client template into a ring buffer in shared memory, which a consumer
-- daemon reads. Enablers from the session daemon select events by name patterns, and filter
-- programs in a bytecode select records. Event notifiers send captured values, written as
-- MessagePack, to the session daemon. The ring buffer, the name patterns and the MessagePack
-- writer are modelled, the table of descriptors by which the session daemon names the objects that
-- it creates, the validation, the specialization
-- and the run of the bytecode, the counters, and the table of descriptors
-- that the application cannot close.
--
-- Ring buffer (src/common/ringbuffer):
--   RingBuffer.State      the channel's constants, a buffer with its commit counters, sub-buffer
--                         table and lost-record counts (backend_types.h, frontend_types.h)
--   RingBuffer.Offsets    buf_trunc, subbuf_offset, subbuf_index and their like, on 64-bit words
--                         (frontend_internal.h); Geometry: what they say of positions
--   RingBuffer.Ids        the identifiers of sub-buffers: index, noref flag and offset count in one
--                         word (subbuffer_id_* of backend_internal.h)
--   RingBuffer.Backend    the sub-buffer table: data sizes, packet counts, clear_noref and
--                         set_noref_offset, and update_read_sb_index, the exchange of the reader's
--                         page with the writer's
--   RingBuffer.Reserve    lib_ring_buffer_try_reserve (frontend_api.h),
--                         lib_ring_buffer_try_reserve_slow (ring_buffer_frontend.c),
--                         lib_ring_buffer_reserve_push_reader, lttng_ust_ring_buffer_align
--                         (include/lttng/ust-ringbuffer-context.h)
--   RingBuffer.Switch     lib_ring_buffer_switch_old_start, _old_end, _new_start, _new_end,
--                         lib_ring_buffer_reserve_slow, try_switch_slow and switch_slow
--   RingBuffer.Commit     lib_ring_buffer_commit, check_deliver, check_deliver_slow and
--                         write_commit_counter
--   RingBuffer.Reader     lib_ring_buffer_snapshot, move_consumer, get_subbuf, put_subbuf and
--                         poll_deliver
--   RingBuffer.Order      lttng_ust_fls and get_count_order (backend_internal.h)
--   RingBuffer.Create     the sizes and orders of a new channel: channel_backend_init
--                         (ring_buffer_backend.c) up to the allocation
-- A writer reserves a slot by one exchange of the buffer's offset, writes, and commits the slot's
-- size to the sub-buffer's hot counter; the commit that makes a sub-buffer full delivers it by an
-- exchange of the cold counter. A reader takes the sub-buffer at the consumed position, in
-- overwrite mode by an exchange of table entries, and puts it back. Each retry loop is modelled as
-- one pass, which says whether the code goes round again, or on fuel that counts the retries
-- (get_subbuf, as the code counts them too). What other threads do between two steps of the
-- reader is a parameter. A configuration's client callbacks are parameters with what they give.
--
-- Name patterns (src/common/strutils.c):
--   Strutils              strutils_test_glob_pattern and the two tests on it, and
--                         strutils_star_glob_match with its loop
--   Strutils.Tokens       a pattern as a list of tokens; Accepts and Glob describe what it matches
-- The loop of strutils_star_glob_match has the fuel (length of the candidate + 1) * (length of the
-- pattern + 1): a round moves on in the pattern, and a return to the latest star takes one byte
-- from the candidate that is left behind it, which is what the proof in Strutils.Decide counts.
--
-- MessagePack (src/common/msgpack/msgpack.c):
--   Msgpack               the writer record and every function of the file but
--                         lttng_msgpack_writer_fini, which clears the record; pointers are
--                         offsets into the buffer, and an assertion, which only prints, is nothing
--   Msgpack.Format        the format on its own, with a reader; Written, Decoded and Trip relate
--                         the two
--
-- Object descriptors (src/lib/lttng-ust/lttng-ust-abi.c):
--   Objd                  objd_alloc, _objd_get (objd_get), objd_free, objd_ref and
--                         lttng_ust_abi_objd_unref on the table, with the free list threaded
--                         through the word that an entry's union shares
--   Objd.Free             the free list as a chain, and the invariant; Grow, Alloc and Release: what
--                         the operations do. What the release of an object does to the table is a
--                         parameter, and so is whether there is memory
--
-- Bytecode (src/lib/lttng-ust/lttng-bytecode-validator.c,
-- lttng-bytecode-specialize.c, lttng-bytecode-interpreter.c, bytecode.h, lttng-bytecode.h):
--   Bytecode              the instructions, their numbers and their sizes
--   Bytecode.Validator    Context: the tests for the code's end and for types; Exec: exec_insn, the
--                         merge points and lttng_bytecode_validate; Load:
--                         lttng_bytecode_validate_load; Table: the calls of the hash table
--   Bytecode.Interpreter  Machine: the stack with its two registers and estack_push, estack_pop,
--                         estack_ax and estack_bx; Strings: parse_char and stack_strcmp; Compare,
--                         Arith and Load: the instructions; Run: lttng_bytecode_interpret
--   Bytecode.Safety       the two together: Agree: an instruction; Points: the merge points;
--                         Simulation: a whole program
--   Bytecode.Specializer  lttng-bytecode-specialize.c. Data: bytecode_reserve_data and
--                         bytecode_push_data; Types: the static stack and the types of fields; Lookup:
--                         the data of indexes and symbols; Insn and Run: the instructions and the loop
--                         of lttng_bytecode_specialize, on one unit of fuel more than the code has
--                         bytes; Area, Keeps, Ends: the data area and the end of the loop; Choices,
--                         Agree: an instruction and what it becomes; Typed, Steps, Pushes, Leads,
--                         Single, Held: the static types and the stack of the interpreter
-- The validator walks the code once, in order, with the types on the stack as it would be there; a
-- logical operation leaves its stack at its target, a merge point, where the walk compares it with
-- the stack that it has. The interpreter jumps. Both loops have the length of the code as fuel, one
-- more in lttng_bytecode_validate_load, since every instruction takes a byte at least and jumps are
-- forward. The length of the validation stack and of the interpreter's are parameters, 10 and 10 in
-- the code. Reads of memory, contexts, floating point and the traversal of composed types are
-- parameters; an address of bytes gives the string there.
--
-- Counters (src/common/counter/counter.c, counter-api.h, counter-internal.h; src/common/bitmap.h):
--   Counter               sizes, layouts, strides and indexes, the bitmaps of flags, and
--                         lttng_counter_add with what it moves from a processor to the channel
--   Counter.Read          lttng_counter_read, lttng_counter_aggregate, lttng_counter_clear and
--                         lttng_counter_set_channel_sum_step
--   Counter.Index, Columns, Total, Flags, Read.Sum and Read.Clear: indexes, sums and flags
-- A value is the two's complement word of its size. The loops on an exchange are one pass, as they
-- are where no other thread writes in between. What `1U << bit` gives for a bit from 32 on, which C
-- leaves open, is a parameter.
--
-- Descriptors of the tracer (src/lib/lttng-ust-common/fd-tracker.c):
--   FdTracker             adding and deleting, lttng_ust_safe_close_fd and
--                         lttng_ust_safe_closefrom_fd; a run tells what it passes to the system
--   FdTracker.Spares      which descriptors that is
--
-- Common has the Boolean tests, the lists and the words that these share. The modules named Tests
-- run the definitions on small inputs.
--
-- Not modelled: the memory model of the processor (every atomic operation is one step), the
-- wake-up of readers, timers, signals, the memory of channels, the
-- linking of bytecode, the format of captured values, the commands on objects and the
-- clean-up of an owner's objects, sessions and enablers, tracepoint registration, the memory of
-- counters, contexts, the protocol with the session daemon, the state dump, and the bindings and preloaded
-- wrappers, which are input and output or are left for further modules. The copies of a
-- formatted-print library and of an RCU hash table in the tree belong to other projects.
pub mod Common
pub mod RingBuffer
pub mod Strutils
pub mod Msgpack
pub mod Objd
pub mod Bytecode
pub mod Counter
pub mod FdTracker
