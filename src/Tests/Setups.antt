-- ===== src/Tests/Setups.antt =====
-- Making and destroying the structures, with an allocator that grants everything and with some that
-- do not.
use flashbench.Common.{
  ℕ, ◌<◌, ◌+◌, ◌≡◌, refl, arith, true, false, Option, none, some, [], ◌==◌, if◌then◌else◌,
}
use flashbench.Config.{num_blocks_per_chip, num_buses}
use flashbench.Memory.{Mem, to, kmalloc, fill}
use flashbench.Memory.Holds.{Holds, Leaves, nothing, at_ptr}
use flashbench.Ut.Listing.{listing}
use flashbench.Bus.Setup.{fb_bus_controller_init, fb_bus_controller_destroy}
use flashbench.Bus.Setup.Threads.{fb_bus_controller_init-fb_bus_controller_destroy}
use flashbench.WriteBuffer.Setup.{fb_destroy_write_buffer, alloc_write_buffer}
use flashbench.WriteBuffer.Setup.Freed.{pg_buf_of, alloc_write_buffer-fb_destroy_write_buffer}
use flashbench.Ssd.{FlashPage, SsdInfo, page_status_valid, get_block_info}
use flashbench.Ssd.Setup.{
  SsdObj, new_chip, init_block, init_buses, create_ssd_info, destroy_ssd_info, alloc_buses,
  alloc_chips,
}
use flashbench.Ssd.Setup.Freed.{create_ssd_info-destroy_ssd_info, create_ssd_info_bad}
use flashbench.Ssd.Setup.Lists.{chip_of, init_buses_lem}
use flashbench.Mapping.Setup.{create_act_blk_mngr}
use flashbench.Mapping.Deletions.{
  DelmObj, wild_delm, destroy_del_mngr, create_del_mngr, from_btod, from_wtod, from_ppas,
  from_lpas_to_copy, from_data_to_copy, finish, alloc_field, init_delm,
}
use flashbench.Mapping.Deletions.Leak.{create_del_mngr-destroy_del_mngr}
use flashbench.Mapping.Deletions.Wild.{create_del_mngr_bad}
use flashbench.Mapping.Setup.Start.{new_ssd, first_blks, create_act_blk_mngr-init_buses}

-- The `n`-th request is answered with `100 + n`, but the one with the number `refused` is refused.
abbrev memory : ℕ → ℕ → Mem
memory refused asked = record {
  answer = λ n. if n == refused then none else some (100 + n);
  asked = asked;
  live = λ p. 0;
  bad = false;
}

abbrev all_granted : Mem
all_granted = memory 1000 0

-- Behind the answer to a request.
abbrev behind : Mem → Mem
behind m = (kmalloc m).1

-- The new lists hold nothing in particular, and every thread starts.
fb_bus_controller_init-fb_bus_controller_destroy_example :
    Leaves nothing
      (fb_bus_controller_destroy (λ a. []) (λ bus. some (7 + bus)))
      all_granted
      (fb_bus_controller_init (λ a. []) (λ bus. some (7 + bus)) 64 all_granted)
fb_bus_controller_init-fb_bus_controller_destroy_example =
    fb_bus_controller_init-fb_bus_controller_destroy (λ a. []) (λ bus. some (7 + bus))
      (λ bus. (7 + bus, refl)) 64 all_granted

alloc_write_buffer-fb_destroy_write_buffer_example :
    Leaves pg_buf_of fb_destroy_write_buffer all_granted (alloc_write_buffer 8 4096 all_granted)
alloc_write_buffer-fb_destroy_write_buffer_example =
    alloc_write_buffer-fb_destroy_write_buffer 8 4096 all_granted

abbrev pub old_page : FlashPage
old_page = record {
  page_status = λ ofs. page_status_valid;
  no_logical_page_addr = λ ofs. 3;
  nr_invalid_log_pages = 5;
  del_flag = true;
}

-- What the arrays of the device hold before they are set.
abbrev pub old_ssd : SsdInfo
old_ssd = record {
  block_at = λ b. init_block (λ pg. old_page) 0 1 2;
  chip_at = λ bus chip. new_chip;
}

init_buses_lem_example :
    ((init_buses listing (λ pg. old_page) num_buses old_ssd).chip_at 0 1
      ≡ chip_of 0 1 num_blocks_per_chip)
    × ((i : ℕ)
        → i < num_blocks_per_chip
        → (init_buses listing (λ pg. old_page) num_buses old_ssd).block_at (get_block_info 0 1 i)
          ≡ init_block (λ pg. old_page) 0 1 i)
init_buses_lem_example =
    init_buses_lem listing (λ pg. old_page) old_ssd 0 1 (omega arith) (omega arith)

abbrev pub ready_ssd : SsdInfo
ready_ssd = new_ssd listing (λ pg. old_page) old_ssd

create_act_blk_mngr-init_buses_example : (create_act_blk_mngr listing ready_ssd all_granted).0 ≡ (
  some (record {
    self = 100;
    act_blks_at = to 101;
    act_blks = first_blks listing (λ pg. old_page) old_ssd;
    mru_bus = 0;
    mru_chip = 1;
  }),
  behind (behind all_granted),
)
unfolding kmalloc
create_act_blk_mngr-init_buses_example =
    create_act_blk_mngr-init_buses listing (λ pg. old_page) old_ssd all_granted (behind all_granted)
      (behind (behind all_granted)) 100 101 refl refl

-- The call that made a structure, written as the structure and the memory.
abbrev IsSome {ℓ} : {A : Type ℓ} → Option A → Type 0
IsSome none = ⊥
IsSome (some a) = Unit

abbrev made {ℓ} : {A : Type ℓ} → A → Option A → A
made d none = d
made d (some a) = a

made_lem {ℓ} : {A : Type ℓ} (d : A) (r : Option A × Mem) → IsSome r.0 → r ≡ (some (made d r.0), r.1)
made_lem d (none, m) s = absurd s
made_lem d (some a, m) s = refl

-- uthash has nothing to free here.
abbrev no_tables : ℕ → Mem → Mem
no_tables t m = m

abbrev delm_result : Option DelmObj × Mem
delm_result = create_del_mngr no_tables all_granted

delm_made : IsSome delm_result.0
unfolding create_del_mngr from_btod from_wtod from_ppas from_lpas_to_copy from_data_to_copy finish
    alloc_field init_delm kmalloc
delm_made = tt

create_del_mngr-destroy_del_mngr_example :
    Holds all_granted
      (destroy_del_mngr no_tables (to (made (wild_delm 0) delm_result.0)) delm_result.1)
      (at_ptr (made (wild_delm 0) delm_result.0).ppas)
create_del_mngr-destroy_del_mngr_example =
    create_del_mngr-destroy_del_mngr no_tables all_granted delm_result.1
      (made (wild_delm 0) delm_result.0) (made_lem (wild_delm 0) delm_result delm_made)

-- The third request, which is for the array `wtod`, is refused.
create_del_mngr_bad_example : (create_del_mngr no_tables (memory 2 0)).1.bad ≡ true
unfolding create_del_mngr from_btod from_wtod alloc_field kmalloc
create_del_mngr_bad_example =
    create_del_mngr_bad no_tables (memory 2 0) 100 (behind (memory 2 0)) refl refl

abbrev ssd_result : Option SsdObj × Mem
ssd_result = create_ssd_info listing (λ pg. old_page) old_ssd all_granted

abbrev no_ssd : SsdObj
no_ssd = record { self = 0; list_buses_at = 0; list_chips = []; info = old_ssd }

ssd_made : IsSome ssd_result.0
unfolding create_ssd_info alloc_buses alloc_chips fill kmalloc
ssd_made = tt

create_ssd_info-destroy_ssd_info_example :
    Holds all_granted (destroy_ssd_info (made no_ssd ssd_result.0) ssd_result.1) []
create_ssd_info-destroy_ssd_info_example =
    create_ssd_info-destroy_ssd_info listing (λ pg. old_page) old_ssd all_granted ssd_result.1
      (made no_ssd ssd_result.0) (made_lem no_ssd ssd_result ssd_made)

create_ssd_info_bad_example :
    ((create_ssd_info listing (λ pg. old_page) old_ssd (memory 3 0)).0 ≡ none)
    × ((create_ssd_info listing (λ pg. old_page) old_ssd (memory 3 0)).1.bad ≡ true)
unfolding kmalloc
create_ssd_info_bad_example =
    create_ssd_info_bad listing (λ pg. old_page) old_ssd (memory 3 0) (behind (memory 3 0))
      (behind (behind (memory 3 0))) (behind (behind (behind (memory 3 0))))
      (behind (behind (behind (behind (memory 3 0))))) 100 101 102 refl refl refl refl
