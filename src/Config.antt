-- ===== src/Config.antt =====
-- The hardware configuration: option.h, the enumerations of rust/libflashbench.h, and the constants
-- of main.h, ftl_algorithm_page_mapping.h and ftl_algorithm_page_mapping.c; 32-bit words.
use flashbench.Common.{ℕ, ◌+◌, ◌-◌, ◌*◌, ◌/◌, ◌%◌, ◌^◌}

-- The number of values of a `u32`.
abbrev pub u32_mod : ℕ
u32_mod = 2 ^ 32

-- `a + b`, `a - b`, `++a` and `--a` on `u32`.
abbrev pub add_u32 : ℕ → ℕ → ℕ
add_u32 a b = (a + b) % u32_mod

abbrev pub sub_u32 : ℕ → ℕ → ℕ
sub_u32 a b = (a + u32_mod - b) % u32_mod

-- The conversion to `u32`, and the one to `u8`.
abbrev pub to_u32 : ℕ → ℕ
to_u32 a = a % u32_mod

abbrev pub to_u8 : ℕ → ℕ
to_u8 a = a % 2 ^ 8

-- `a << k` on `u32`, and `a >> k`.
abbrev pub shl_u32 : ℕ → ℕ → ℕ
shl_u32 a k = a * 2 ^ k % u32_mod

abbrev pub shr : ℕ → ℕ → ℕ
shr a k = a / 2 ^ k

abbrev pub num_buses : ℕ
num_buses = 1

abbrev pub num_chips_per_bus : ℕ
num_chips_per_bus = 2

abbrev pub num_blocks_per_chip : ℕ
num_blocks_per_chip = 171

abbrev pub num_pages_per_block : ℕ
num_pages_per_block = 16 * 4 * 3

abbrev pub cfactor_percent : ℕ
cfactor_percent = 90

abbrev pub nr_lp_in_pp : ℕ
nr_lp_in_pp = 4

abbrev pub lp_page_mask : ℕ
lp_page_mask = 0x3

abbrev pub lp_page_shift : ℕ
lp_page_shift = 2

abbrev pub num_chips : ℕ
num_chips = num_buses * num_chips_per_bus

abbrev pub num_pages_in_write_buffer : ℕ
num_pages_in_write_buffer = nr_lp_in_pp * num_chips

abbrev pub logical_page_size : ℕ
logical_page_size = 4096

abbrev pub physical_page_size : ℕ
physical_page_size = logical_page_size * nr_lp_in_pp

abbrev pub sector_size : ℕ
sector_size = 512

abbrev pub bgc_th_intv : ℕ
bgc_th_intv = 5000

abbrev pub bgc_th_nr_blks : ℕ
bgc_th_nr_blks = 14

abbrev pub nr_max_req_bio : ℕ
nr_max_req_bio = 256

abbrev pub nr_max_lpas_discard : ℕ
nr_max_lpas_discard = 2048

-- `PAGE_UNMAPPED`, which is -1, as a `u32`.
abbrev pub page_unmapped : ℕ
page_unmapped = u32_mod - 1

-- `NUM_PAGES` and `NUM_LOG_PAGES` of rust/src/constants.rs.
abbrev pub num_pages : ℕ
num_pages = num_chips * num_blocks_per_chip * num_pages_per_block

abbrev pub num_log_pages : ℕ
num_log_pages = num_pages * nr_lp_in_pp * cfactor_percent / 100
