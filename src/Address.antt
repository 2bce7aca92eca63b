-- ===== src/Address.antt =====
-- Physical page addresses: `convert_to_physical_address`, `convert_to_ssd_layout` and
-- `is_valid_address_range` of rust/src/vdevice.rs. The four numbers that the source writes through
-- pointers are one record.
pub mod RoundTrip
use Prim.Native.Nat.{bit_and, bit_or}
use flashbench.Common.{ℕ, Bool, ltb}
use flashbench.Config.{shl_u32, shr, num_log_pages}

-- `page` counts logical pages: it is the index of a physical page, shifted, with an offset in it.
pub record Layout : Type 0 where
  pub bus : ℕ
  pub chip : ℕ
  pub block : ℕ
  pub page : ℕ

pub is_valid_address_range : ℕ → Bool
is_valid_address_range logical_page_address = ltb logical_page_address num_log_pages

unfoldable pub convert_to_physical_address : ℕ → ℕ → ℕ → ℕ → ℕ
convert_to_physical_address bus chip block page =
    bit_or (bit_or (bit_or (shl_u32 bus 28) (shl_u32 chip 24)) (shl_u32 block 12)) page

pub convert_to_ssd_layout : ℕ → Layout
convert_to_ssd_layout logical_page_address = record {
  bus = bit_and 0xf (shr logical_page_address 28);
  chip = bit_and 0xf (shr logical_page_address 24);
  block = bit_and 0xfff (shr logical_page_address 12);
  page = bit_and 0xfff logical_page_address;
}
