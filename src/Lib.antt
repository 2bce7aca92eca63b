-- ===== src/Lib.antt =====
-- flashbench: an emulated SSD as a Linux block device. A request for the device is split into
-- logical pages (main.c); written pages wait in a write buffer (write_buffer.c) until four of them
-- fill a physical page; the page mapping (ftl_algorithm_page_mapping.c, page_mapping_function.c with
-- rust/src/page_mapping_function.rs, over the block lists of ssd_info.c) chooses where they go; the
-- virtual device (rust/src/vdevice.rs) keeps the data and hands an operation for each access to
-- the bus controller (bus_controller.c), whose thread lets it last as long as on flash memory and
-- then ends the block request.
--
-- Files, and what they model:
--   Config: option.h, the constants of rust/libflashbench.h and rust/src/constants.rs, u32 words.
--   Memory: the kernel's allocators, and the loops that fill and free arrays of pointers;
--     Memory.Holds says what a run has allocated and not freed.
--   Address: the packed physical page addresses of rust/src/vdevice.rs.
--   Bus.Queue: create_opr_queue, opr_queue_put_entry, opr_queue_get_first, opr_queue_remove_first
--     of bus_controller.c; Bus.Fifo is the queue that they implement.
--   Bus.Busy: fb_chip_busy_t with is_acquired, acquire_busy_lock, release_busy_lock.
--   Bus.Controller: the rounds of fb_bus_ctrl_thread, each in its two phases, over the queues, the
--     busy states and the requests in flight; Bus.Controller.Entry: fb_issue_operation, whose loop
--     takes the thread's rounds between its tries as a list.
--   Bus.Setup: create_bus_controller, fb_bus_controller_init and what these call and undo, with the
--     allocations, their error paths, and the threads' start and stop.
--   Bio: fb_bio_t, its reference count and its end (main.c, main.h).
--   Ut: the lists and hash tables of uthash/, an interface with their documented behaviour as laws.
--   WriteBuffer: all operations of write_buffer.c, by their names; WriteBuffer.Setup: its making and
--     its end, with the allocations.
--   Ssd: ssd_info.c and ssd_info.h by their names: pages, blocks, and the lists of blocks of a chip.
--     Ssd.Setup: create_ssd_info and destroy_ssd_info.
--   Mapping: page_mapping_function.c and rust/src/page_mapping_function.rs: the table, the current
--     blocks, and the mapping and invalidation of logical pages. Mapping.Slots to Mapping.Agree show
--     that the table and the blocks agree; Mapping.Table is the table behind a physical page, and
--     Mapping.Turns is about get_next_bus_chip.
--     Mapping.Setup and Mapping.Deletions: the making and the end of the mapping table, of the manager
--     of the active blocks and of the manager of deletions of ftl_algorithm_page_mapping.c.
--   Discard: make_discard_request_page_mapping of ftl_algorithm_page_mapping.c, over the write buffer
--     and the mapping.
--   Requests: fb_build_bio of main.c, over the write buffer.
--   Writes: make_write_request_page_mapping, is_fgc_needed and fb_wb_flush of
--     ftl_algorithm_page_mapping.c, over the write buffer and the mapping; the foreground garbage
--     collection, trigger_gc_page_mapping, is an arbitrary function there. Writes.Placed says what a request writes and where,
--     and Writes.Flush has the rounds of a flush. Writes.Pages: the branch
--     WRITE of make_request of main.c with fb_del_invalid_data; Writes.Pages.Trail is the way of its
--     pages through the buffer.
--   Reads: make_read_request_page_mapping of ftl_algorithm_page_mapping.c and the branch READ of
--     make_request of main.c, up to what is asked of the virtual device.
--   Dispatch: make_request of main.c as a whole, over Discard, Requests, Reads and Writes.
--     Dispatch.Branches lists the ways through it.
--   Gc: the garbage collection of rust/src/gc_page_mapping.rs and gc_page_mapping.c by its functions'
--     names: the choice of victims; Gc.Copy: the reading and rewriting of their valid pages; Gc.Cycle:
--     trigger_gc_page_mapping and the blocks that it sets aside; Gc.Background: trigger_bg_gc.
--   Driver: fb_init, fb_exit and fb_init_write_buffer_thread of main.c, as the calls of the
--     functions that make and destroy the parts of the driver.
--   Tests: runs on concrete inputs.
--
-- State is passed explicitly; a function that returns 0 or -1 returns a Status. A u32 is a natural
-- number with its wrap-around written out where the code computes. A completion that is used as a
-- lock makes the function that holds it one step. The rounds of the bus thread are a list of clock
-- readings, of any length, so that no fuel is needed there; the loop of fb_rm_written_pgs has one
-- round of fuel more than there are pages being written, which is enough, since each round takes one
-- of them out of the list, and fb_wb_flush has one more than there are buffered pages; the loop over
-- the pages of a write request has two rounds for each page and one more, since a page that finds no
-- room finds some behind the flush; the outer loop of get_valid_pgs_in_vic_blks has two rounds, of which
-- the second finds that all pages are read.
--
-- A function that makes or destroys a structure is a function on the state of the allocator, Mem:
-- which requests are granted, and with which addresses, is arbitrary. A pointer is set, null, or was
-- never set, and the use of one that was never set is recorded as bad, like the free of what is not
-- allocated.
--
-- The arrays of fb_bio_t, of 256 entries, are lists, and the results about a request ask for at most
-- 256 segments: the code does not compare the count of entries with that bound.
--
-- Not modelled: create_pg_ftl and create_gc_mngr, which call the functions that make the structures;
-- the making, the end and the memory of the virtual device; what the parts of the driver
-- leave allocated behind their own end, except where Bus.Setup, Ssd.Setup, Mapping.Setup,
-- Mapping.Deletions and WriteBuffer.Setup show it; the write buffer's thread; the display of counters.
pub mod Common
pub mod Config
pub mod Memory
pub mod Address
pub mod Bus
pub mod Bio
pub mod Ut
pub mod WriteBuffer
pub mod Ssd
pub mod Mapping
pub mod Discard
pub mod Requests
pub mod Writes
pub mod Reads
pub mod Dispatch
pub mod Gc
pub mod Driver
pub mod Tests
