-- ===== src/Driver/Balance.antt =====
-- What is held behind the loading and behind the unloading.
use flashbench.Common.{ℕ, Bool, true, false, not, ◌≡◌, refl, Option, none, some, if_elim}
use flashbench.Driver.{
  perf, context, vdevice, ssd_info, mapping_context, req_queue, major_num, gendisk, write_buffer,
  no_task, Driver, InitError, take_part, give_back, del_gendisk, add_disk, fail_create_vdevice,
  fail_create_ssd_info, fail_create_mapping_context, fail_alloc_bdev_queue, fail_register_bdev,
  fail_alloc_disk, fail_create_write_buffer, fb_init_write_buffer_thread, start_driver, fb_init,
  stop_wb_task, fb_exit,
}

abbrev pub unloaded : Driver
unloaded = record {
  held = λ p. false;
  added = false;
  ptr_wb_task = no_task;
  not_held = false;
  not_added = false;
  error_used = false;
}

-- The context, the structures, the queue and the number are not held.
abbrev pub Unwound : Driver → Type 0
Unwound d =
    (d.held context ≡ false)
    × (d.held vdevice ≡ false)
    × (d.held ssd_info ≡ false)
    × (d.held mapping_context ≡ false)
    × (d.held req_queue ≡ false)
    × (d.held major_num ≡ false)
    × (d.held write_buffer ≡ false)

-- The two results of `fb_init`; `started` is whether the thread has started.
abbrev pub Loaded : Bool → Option InitError × Driver → Type 0
Loaded started (some e, d) =
    Unwound d
    × (d.held perf ≡ true)
    × (d.held gendisk ≡ d.not_added)
    × (d.not_held ≡ false)
    × (d.error_used ≡ false)
Loaded started (none, d) =
    Unwound (fb_exit d)
    × ((fb_exit d).held perf ≡ false)
    × ((fb_exit d).held gendisk ≡ false)
    × ((fb_exit d).not_held ≡ false)
    × ((fb_exit d).not_added ≡ false)
    × ((fb_exit d).error_used ≡ not started)

-- `fb_init` on an unloaded driver, whichever parts can be made. If it fails it calls the function that
-- destroys a part, once, for each part that it made, but not for the entry in procfs, and at times not
-- for the disk, which it keeps exactly where its error path deletes a disk that was not added. If it
-- succeeds, `fb_exit` calls each of these functions once, and uses a pointer that is an error exactly
-- if the thread of the write buffer did not start. What these functions leave of a part is not stated.
pub fb_init-Loaded :
    (granted : ℕ → Bool) (started : Bool) → Loaded started (fb_init granted started unloaded)
unfolding fb_init take_part give_back del_gendisk add_disk fail_create_vdevice fail_create_ssd_info
    fail_create_mapping_context fail_alloc_bdev_queue fail_register_bdev fail_alloc_disk
    fail_create_write_buffer fb_init_write_buffer_thread start_driver stop_wb_task fb_exit
fb_init-Loaded granted started =
    if_elim (Loaded started) (granted context) _ _
      (if_elim (Loaded started) (granted vdevice) _ _
        (if_elim (Loaded started) (granted ssd_info) _ _
          (if_elim (Loaded started) (granted mapping_context) _ _
            (if_elim (Loaded started) (granted req_queue) _ _
              (if_elim (Loaded started) (granted major_num) _ _
                (if_elim (Loaded started) (granted gendisk) _ _
                  (if_elim (Loaded started) (granted write_buffer) _ _ (whole started)
                    ((refl, refl, refl, refl, refl, refl, refl), refl, refl, refl, refl))
                  ((refl, refl, refl, refl, refl, refl, refl), refl, refl, refl, refl))
                ((refl, refl, refl, refl, refl, refl, refl), refl, refl, refl, refl))
              ((refl, refl, refl, refl, refl, refl, refl), refl, refl, refl, refl))
            ((refl, refl, refl, refl, refl, refl, refl), refl, refl, refl, refl))
          ((refl, refl, refl, refl, refl, refl, refl), refl, refl, refl, refl))
        ((refl, refl, refl, refl, refl, refl, refl), refl, refl, refl, refl))
      ((refl, refl, refl, refl, refl, refl, refl), refl, refl, refl, refl)
  where
    whole :
        (started : Bool)
        → Loaded started (
            start_driver started (
              take_part write_buffer (
                take_part gendisk (
                  take_part major_num (
                    take_part req_queue (
                      take_part mapping_context (
                        take_part ssd_info
                          (take_part vdevice (take_part context (take_part perf unloaded))))))))))
    whole true = ((refl, refl, refl, refl, refl, refl, refl), refl, refl, refl, refl, refl)
    whole false = ((refl, refl, refl, refl, refl, refl, refl), refl, refl, refl, refl, refl)
