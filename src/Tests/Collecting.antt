-- ===== src/Tests/Collecting.antt =====
-- Garbage collection on a device each of whose chips has one used block, in each page of which one
-- logical page of four is valid, and one block set aside.
use flashbench.Common.{
  ℕ, ◌+◌, ◌*◌, ◌≡◌, refl, false, none, some, [], ◌∷◌, arith, ltb, ◌==◌, if◌then◌else◌, Each,
}
use flashbench.Common.Counts.{same_ne}
use flashbench.Config.{page_unmapped}
use flashbench.Ut.Listing.{listing}
use flashbench.Ssd.{
  SsdInfo, FlashPage, FlashBlock, page_status_valid, page_status_invalid, get_dirt_block,
}
use flashbench.Gc.{GcState, select_vic_blk_greedy, set_vic_blks}
use flashbench.Gc.Choice.{MostInvalid, select_vic_blk_greedy_lem}
use flashbench.Gc.Copy.{get_valid_pgs_in_vic_blks, prog_valid_pgs_to_gc_blks}
use flashbench.Gc.Copy.Ends.{Collected, IsCounted, get_valid_pgs_in_vic_blks-Collected}
use flashbench.Gc.Copy.Counters.{BlockCounted, AllCounted}
use flashbench.Gc.Copy.Goal.{Targeted, set_vic_blks-Targeted}
use flashbench.Gc.Copy.Rewritten.{Rewritten, prog_valid_pgs_to_gc_blks-Rewritten}
use flashbench.Gc.Cycle.{prepare_act_blks, trigger_gc_page_mapping}
use flashbench.Gc.Cycle.Reserve.{Preparations, prepare_act_blks-Preparations}
use flashbench.Gc.Background.{trigger_bg_gc}
use flashbench.Gc.Background.Bounded.{Bounded, trigger_bg_gc-Bounded}
use flashbench.Gc.Cycle.Ends.{Renewed}
use flashbench.Gc.Cycle.Whole.{IsCollectable, trigger_gc_page_mapping-Renewed}

abbrev page : ℕ → FlashPage
page pg = record {
  page_status = λ lp. if lp == 2 then page_status_valid else page_status_invalid;
  no_logical_page_addr = λ lp. 4 * pg + lp;
  nr_invalid_log_pages = 3;
  del_flag = false;
}

abbrev block : ℕ → FlashBlock
block b = record {
  no_block = b;
  no_chip = if ltb b 171 then 0 else 1;
  no_bus = 0;
  nr_valid_pages = 192;
  nr_invalid_pages = 0;
  nr_free_pages = 0;
  nr_valid_log_pages = 192;
  nr_invalid_log_pages = 576;
  nr_erase_cnt = 0;
  is_bad_block = false;
  last_modified_time = 0;
  is_reserved_block = false;
  is_active_block = false;
  list_pages = page;
  del_flag = false;
}

-- Blocks 10 and 210 are used.
abbrev ssd : SsdInfo
ssd = record {
  block_at = block;
  chip_at = λ bus chip. record {
    nr_free_blocks = 0;
    nr_used_blks = 1;
    nr_dirt_blks = 0;
    free_blks = [];
    used_blks = (200 * chip + 10) ∷ [];
    dirt_blks = [];
    nr_dirty_blocks = 0;
  };
}

-- Blocks 11 and 211 are set aside.
abbrev state : GcState
state = record {
  ftl = record {
    ssd = ssd;
    mappings = λ lpa. page_unmapped;
    act_blks = λ i. none;
    gc_blks = λ i. some (200 * i + 11);
    mru_bus = 0;
    mru_chip = 1;
  };
  gcm = record {
    vic_blks = λ i. none;
    first_valid_pg = λ i. 0;
    lpas_to_copy = λ i. 0;
    nr_pgs_to_copy = 0;
  };
  accesses = [];
  nr_wordline_prog_bg = 0;
  nr_page_reads = 0;
  nr_blk_erasures = 0;
  nr_gc_trigger_bg = 0;
}

block-counted : (b : ℕ) → BlockCounted ssd b
block-counted b = record { pages = λ pg h. refl; valid = refl }

all_counted : AllCounted ssd
all_counted chip b h l = block-counted b

collectable : IsCollectable state
collectable = record {
  counted = all_counted;
  apart = λ i b chip h e k.
      let at : 200 * i + 11 ≡ b = cc in
      (refl, omega (arith, same_ne {a = 200 * chip + 10} {b = b} (λ z. omega (arith, at, z))));
}

select_vic_blk_greedy_lem_example :
    ((b : ℕ) → get_dirt_block ssd 0 1 ≡ some b → select_vic_blk_greedy ssd 0 1 ≡ some b)
    × (get_dirt_block ssd 0 1 ≡ none
        → MostInvalid ssd (ssd.chip_at 0 1).used_blks (select_vic_blk_greedy ssd 0 1))
select_vic_blk_greedy_lem_example = select_vic_blk_greedy_lem ssd 0 1

set_vic_blks-Targeted_example : Targeted state (set_vic_blks state)
set_vic_blks-Targeted_example = set_vic_blks-Targeted state refl all_counted

-- Both used blocks are victims.
abbrev ready : GcState
ready = record state {
  gcm = record state.gcm { vic_blks = λ i. some (200 * i + 10); nr_pgs_to_copy = 384 };
}

ready-IsCounted : IsCounted ready
ready-IsCounted = record { counted = λ i b pg k e h. refl; goal = refl; fits = omega arith }

get_valid_pgs_in_vic_blks-Collected_example :
    Each (Collected ready) (get_valid_pgs_in_vic_blks 2 ready)
get_valid_pgs_in_vic_blks-Collected_example =
    get_valid_pgs_in_vic_blks-Collected 0 ready ready-IsCounted

prog_valid_pgs_to_gc_blks-Rewritten_example :
    Rewritten listing 0 384 (prog_valid_pgs_to_gc_blks listing ready)
prog_valid_pgs_to_gc_blks-Rewritten_example =
    prog_valid_pgs_to_gc_blks-Rewritten listing ready (omega arith)

prepare_act_blks-Preparations_example : Preparations state (prepare_act_blks state)
prepare_act_blks-Preparations_example = prepare_act_blks-Preparations state

trigger_gc_page_mapping-Renewed_example : Each Renewed (trigger_gc_page_mapping listing 2 state)
trigger_gc_page_mapping-Renewed_example =
    trigger_gc_page_mapping-Renewed listing 0 state collectable

-- Each chip has an active block too.
abbrev busy : GcState
busy = record state { ftl = record state.ftl { act_blks = λ i. some (200 * i + 12) } }

trigger_bg_gc-Bounded_example : Each (Bounded listing busy) (trigger_bg_gc listing busy)
trigger_bg_gc-Bounded_example = trigger_bg_gc-Bounded listing busy (λ b pg. omega arith)
