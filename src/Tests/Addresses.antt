-- ===== src/Tests/Addresses.antt =====
-- Addresses: runs of the code of rust/src/vdevice.rs.
use flashbench.Common.{◌≡◌, refl, arith}
use flashbench.Address.{Layout, convert_to_physical_address, convert_to_ssd_layout}
use flashbench.Address.RoundTrip.{Fits, encode, convert_to_ssd_layout-convert_to_physical_address}

abbrev some_place : Layout
some_place = record { bus = 0; chip = 1; block = 170; page = 767 }

some_place-Fits : Fits some_place
some_place-Fits = record {
  bus_fits = omega arith;
  chip_fits = omega arith;
  block_fits = omega arith;
  page_fits = omega arith;
}

packed : convert_to_physical_address 0 1 170 767 ≡ 17474303
unfolding convert_to_physical_address
packed = refl

convert_to_ssd_layout-convert_to_physical_address_example :
    convert_to_ssd_layout (encode some_place) ≡ some_place
convert_to_ssd_layout-convert_to_physical_address_example =
    convert_to_ssd_layout-convert_to_physical_address some_place some_place-Fits
