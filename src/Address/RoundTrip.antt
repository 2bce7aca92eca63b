-- ===== src/Address/RoundTrip.antt =====
-- Packing a place on the device into an address and unpacking it are inverse to one another.
use Prim.Native.Nat.{bit_or}
use flashbench.Common.{ℕ, ◌+◌, ◌*◌, ◌/◌, ◌%◌, ◌^◌, ◌<◌, ◌≡◌, arith}
use flashbench.Common.Bits.{bit_or-eq-add, bit_and_0xf, bit_and_0xfff}
use flashbench.Config.{u32_mod, shl_u32}
use flashbench.Address.{Layout, convert_to_physical_address, convert_to_ssd_layout}

-- A place whose numbers fit the fields of an address.
pub record Fits (l : Layout) : Type 0 where
  pub bus_fits : l.bus < 16
  pub chip_fits : l.chip < 16
  pub block_fits : l.block < 4096
  pub page_fits : l.page < 4096

abbrev pub encode : Layout → ℕ
encode l = convert_to_physical_address l.bus l.chip l.block l.page

-- The address as a sum, for numbers that fit.
pub encode_sum :
    (l : Layout) → Fits l → encode l ≡ l.bus * 2 ^ 28 + l.chip * 2 ^ 24 + l.block * 2 ^ 12 + l.page
unfolding convert_to_physical_address
encode_sum l f = omega (
  arith,
  bit_or-eq-add 12 (bus * 2 ^ 16 + chip * 2 ^ 12 + block) high page (omega (arith, three))
      (f.page_fits),
  three,
)
  where
    open l use {bus, chip, block, page}

    two : bit_or (shl_u32 bus 28) (shl_u32 chip 24) ≡ bus * 2 ^ 28 + chip * 2 ^ 24
    two =
        omega (
          arith,
          bit_or-eq-add 28 bus (shl_u32 bus 28) (shl_u32 chip 24) (omega arith) (omega arith),
        )

    high : ℕ
    high = bit_or (bit_or (shl_u32 bus 28) (shl_u32 chip 24)) (shl_u32 block 12)

    three : high ≡ bus * 2 ^ 28 + chip * 2 ^ 24 + block * 2 ^ 12
    three = omega (
      arith,
      bit_or-eq-add 24 (bus * 2 ^ 4 + chip) (bit_or (shl_u32 bus 28) (shl_u32 chip 24))
          (shl_u32 block 12) (omega (arith, two)) (omega arith),
      two,
    )

-- Each field of an unpacked address as a quotient and a remainder.
pub convert_to_ssd_layout_lem :
    (a : ℕ)
    → convert_to_ssd_layout a ≡ record {
      bus = a / 2 ^ 28 % 16;
      chip = a / 2 ^ 24 % 16;
      block = a / 2 ^ 12 % 4096;
      page = a % 4096;
    }
unfolding convert_to_ssd_layout
convert_to_ssd_layout_lem a = ground (
  arith,
  bit_and_0xf (a / 2 ^ 28),
  bit_and_0xf (a / 2 ^ 24),
  bit_and_0xfff (a / 2 ^ 12),
  bit_and_0xfff a,
)

-- Unpacking the address of a place whose numbers fit their fields gives the place back.
pub convert_to_ssd_layout-convert_to_physical_address :
    (l : Layout) → Fits l → convert_to_ssd_layout (encode l) ≡ l
convert_to_ssd_layout-convert_to_physical_address l f =
    rw (convert_to_ssd_layout_lem (encode l)) (rw (encode_sum l f) (ground arith))

-- Unpacking any 32-bit address gives numbers that fit their fields.
pub convert_to_ssd_layout-Fits : (a : ℕ) → Fits (convert_to_ssd_layout a)
convert_to_ssd_layout-Fits a = rw (convert_to_ssd_layout_lem a) (omega arith)

-- Packing what a 32-bit address unpacks to gives the address back, and its numbers fit.
pub convert_to_physical_address-convert_to_ssd_layout :
    (a : ℕ) → a < u32_mod → (encode (convert_to_ssd_layout a) ≡ a) × Fits (convert_to_ssd_layout a)
convert_to_physical_address-convert_to_ssd_layout a h = (
  rw (encode_sum (convert_to_ssd_layout a) (convert_to_ssd_layout-Fits a))
      (rw (convert_to_ssd_layout_lem a) (omega arith)),
  convert_to_ssd_layout-Fits a,
)
