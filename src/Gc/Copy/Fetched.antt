-- ===== src/Gc/Copy/Fetched.antt =====
-- What the loops of `get_valid_pgs_in_vic_blks` collect.
use mathlib.Core.List.{foldl}
use flashbench.Common.{
  ℕ, zero, suc, ◌+◌, ◌%◌, ◌<◌, ◌≤◌, ◌≡◌, refl, sym, ap, subst, ◌∙◌, Bool, true, false, Option, none,
  some, List, [], ◌∷◌, ◌++◌, length, length-append, arith, if◌then◌else◌, update, if_split,
}
use flashbench.Config.{u32_mod, num_chips, num_pages_per_block, nr_lp_in_pp}
use flashbench.Ssd.{SsdInfo, FlashPage, get_mapped_lpa, get_pg_status, get_pgi_from_blki}
use flashbench.Mapping.{Ftl, chip_index}
use flashbench.Gc.{get_vic_blk, all_chips}
use flashbench.Gc.Copy.{is_page_valid, copy_lpas, Fetch, fetch_page, fetch_chip, fetch_pages}

-- The logical addresses in the valid slots of a page.
abbrev pub valid_lpas : ℕ → FlashPage → ℕ → List ℕ
valid_lpas zero pgi lp = []
valid_lpas (suc n) pgi lp =
    let later = valid_lpas n pgi (lp + 1) in
    if is_page_valid (pgi.page_status lp) then pgi.no_logical_page_addr lp ∷ later else later

-- An array behind a list of writes from an index on.
abbrev pub write_at : (ℕ → ℕ) → ℕ → List ℕ → ℕ → ℕ
write_at mem i [] = mem
write_at mem i (x ∷ xs) = write_at (update mem i x) (i + 1) xs

write_at-append :
    (mem : ℕ → ℕ) (i : ℕ) (xs ys : List ℕ)
    → write_at (write_at mem i xs) (i + length xs) ys ≡ write_at mem i (xs ++ ys)
write_at-append mem i [] ys = ap (λ j. write_at mem j ys) (omega arith)
write_at-append mem i (x ∷ xs) ys =
    ap (λ j. write_at (write_at (update mem i x) (i + 1) xs) j ys) (omega arith)
    ∙ write_at-append (update mem i x) (i + 1) xs ys

copy_lpas_lem :
    (n : ℕ) (pgi : FlashPage) (lp : ℕ) (lpas : ℕ → ℕ) (ptr : ℕ)
    → ((copy_lpas n pgi lp lpas ptr).0 ≡ write_at lpas ptr (valid_lpas n pgi lp))
      × ((copy_lpas n pgi lp lpas ptr).1 ≡ ptr + length (valid_lpas n pgi lp))
unfolding copy_lpas get_pg_status get_mapped_lpa
copy_lpas_lem zero pgi lp lpas ptr = (refl, omega arith)
copy_lpas_lem (suc n) pgi lp lpas ptr =
    go (copy_lpas_lem n pgi (lp + 1)) (is_page_valid (pgi.page_status lp))
  where
    x : ℕ
    x = pgi.no_logical_page_addr lp

    later : List ℕ
    later = valid_lpas n pgi (lp + 1)

    go :
        ((l : ℕ → ℕ) (i : ℕ)
          → ((copy_lpas n pgi (lp + 1) l i).0 ≡ write_at l i later)
            × ((copy_lpas n pgi (lp + 1) l i).1 ≡ i + length later))
        → (v : Bool)
        → ((copy_lpas n pgi
              (lp + 1)
              (if v then update lpas ptr x else lpas)
              (if v then ptr + 1 else ptr)).0
            ≡ write_at lpas ptr (if v then x ∷ later else later))
          × ((copy_lpas n pgi
                (lp + 1)
                (if v then update lpas ptr x else lpas)
                (if v then ptr + 1 else ptr)).1
              ≡ ptr + length (if v then x ∷ later else later))
    go ih true = let (a, b) = ih (update lpas ptr x) (ptr + 1) in (a, omega (arith, b))
    go ih false = ih lpas ptr

-- Those of a page of a block, if there is one.
abbrev pub option_lpas : SsdInfo → ℕ → Option ℕ → List ℕ
option_lpas s pg none = []
option_lpas s pg (some b) = valid_lpas nr_lp_in_pp ((s.block_at b).list_pages pg) 0

-- The counter of a page agrees with the page's slots.
abbrev pub PageCounted : SsdInfo → ℕ → ℕ → Type 0
PageCounted s b pg =
    ((s.block_at b).list_pages pg).nr_invalid_log_pages
      + length (valid_lpas nr_lp_in_pp ((s.block_at b).list_pages pg) 0)
    ≡ nr_lp_in_pp

-- The addresses in a chip's page, in those of several chips, and in `n` pages from `pg` on, in the
-- order of the loops; `vic` are the victims.
module _ (s : SsdInfo) (vic : ℕ → Option ℕ) where
  abbrev pub chip_lpas : ℕ → ℕ × ℕ → List ℕ
  chip_lpas pg c = option_lpas s pg (vic (chip_index c.0 c.1))

  abbrev pub chips_lpas : ℕ → List (ℕ × ℕ) → List ℕ
  chips_lpas pg [] = []
  chips_lpas pg (c ∷ cs) = chip_lpas pg c ++ chips_lpas pg cs

  abbrev pub pages_lpas : ℕ → ℕ → List ℕ
  pages_lpas zero pg = []
  pages_lpas (suc n) pg = chips_lpas pg all_chips ++ pages_lpas n (pg + 1)

  -- The counters of the pages of the chips' victims agree with the pages' slots.
  abbrev pub Counted : Type 0
  Counted =
      (i b pg : ℕ) → i < num_chips → vic i ≡ some b → pg < num_pages_per_block → PageCounted s b pg

-- `xs` are read between `f` and `f'`.
pub record Fetched (f f' : Fetch) (xs : List ℕ) : Type 0 where
  pub same_ftl : f'.g.ftl ≡ f.g.ftl
  pub same_vic : f'.g.gcm.vic_blks ≡ f.g.gcm.vic_blks
  pub same_goal : f'.g.gcm.nr_pgs_to_copy ≡ f.g.gcm.nr_pgs_to_copy
  pub lpas : f'.g.gcm.lpas_to_copy ≡ write_at f.g.gcm.lpas_to_copy f.ptr_lpa xs
  pub ptr_lpa : f'.ptr_lpa ≡ f.ptr_lpa + length xs
  pub ptr_data : f'.ptr_data ≡ f.ptr_data + length xs
  pub nr_read : f'.nr_read_pgs % u32_mod ≡ (f.nr_read_pgs + length xs) % u32_mod
  pub small : f.nr_read_pgs < u32_mod → f'.nr_read_pgs < u32_mod

pub Fetched-none : (f : Fetch) → Fetched f f []
Fetched-none f = record {
  same_ftl = refl;
  same_vic = refl;
  same_goal = refl;
  lpas = refl;
  ptr_lpa = omega arith;
  ptr_data = omega arith;
  nr_read = omega arith;
  small = λ h. h;
}

Fetched-append :
    (f f' f'' : Fetch) (xs ys : List ℕ)
    → Fetched f f' xs
    → Fetched f' f'' ys
    → Fetched f f'' (xs ++ ys)
Fetched-append f f' f'' xs ys a b = record {
  same_ftl = b.same_ftl ∙ a.same_ftl;
  same_vic = b.same_vic ∙ a.same_vic;
  same_goal = b.same_goal ∙ a.same_goal;
  lpas =
      b.lpas
      ∙ ap (λ m. write_at m f'.ptr_lpa ys) a.lpas
      ∙ ap (λ i. write_at (write_at f.g.gcm.lpas_to_copy f.ptr_lpa xs) i ys) a.ptr_lpa
      ∙ write_at-append f.g.gcm.lpas_to_copy f.ptr_lpa xs ys;
  ptr_lpa = omega (arith, a.ptr_lpa, b.ptr_lpa, length-append xs ys);
  ptr_data = omega (arith, a.ptr_data, b.ptr_data, length-append xs ys);
  nr_read = omega (arith, a.nr_read, b.nr_read, length-append xs ys);
  small = λ h. b.small (a.small h);
}

pub length-zero : (xs : List ℕ) → length xs ≡ 0 → xs ≡ []
length-zero [] e = refl
length-zero (x ∷ xs) e = absurd (omega (arith, e))

fetch_page-Fetched :
    (bus chip b pg : ℕ) (f : Fetch)
    → PageCounted f.g.ftl.ssd b pg
    → Fetched f
        (fetch_page bus chip b pg f)
        (valid_lpas nr_lp_in_pp ((f.g.ftl.ssd.block_at b).list_pages pg) 0)
unfolding fetch_page get_pgi_from_blki
fetch_page-Fetched bus chip b pg f h =
    let pgi = (f.g.ftl.ssd.block_at b).list_pages pg in
    let xs = valid_lpas nr_lp_in_pp pgi 0 in
    let (lpas, ptr) = copy_lpas_lem nr_lp_in_pp pgi 0 f.g.gcm.lpas_to_copy f.ptr_lpa in
    if_split (λ f'. Fetched f f' xs) _ _ _
      (λ _. record {
        same_ftl = refl;
        same_vic = refl;
        same_goal = refl;
        lpas = lpas;
        ptr_lpa = ptr;
        ptr_data = omega (arith, h);
        nr_read = omega (arith, h);
        small = λ _. omega arith;
      })
      (λ e. subst (Fetched f f) (sym (length-zero xs (ground (arith, e, h)))) (Fetched-none f))

abbrev fetch_option : ℕ → Fetch → ℕ × ℕ → Option ℕ → Fetch
fetch_option pg f c none = f
fetch_option pg f c (some b) = fetch_page c.0 c.1 b pg f

fetch_option-Fetched :
    (pg : ℕ) (f : Fetch) (c : ℕ × ℕ) (o : Option ℕ)
    → ((b : ℕ) → o ≡ some b → PageCounted f.g.ftl.ssd b pg)
    → Fetched f (fetch_option pg f c o) (option_lpas f.g.ftl.ssd pg o)
fetch_option-Fetched pg f c none h = Fetched-none f
fetch_option-Fetched pg f c (some b) h = fetch_page-Fetched c.0 c.1 b pg f (h b refl)

-- The victims and their blocks of a state of the loops.
abbrev At : SsdInfo → (ℕ → Option ℕ) → Fetch → Type 0
At s vic f = (f.g.ftl.ssd ≡ s) × (f.g.gcm.vic_blks ≡ vic)

Fetched-At :
    {f f' : Fetch} {xs : List ℕ} (s : SsdInfo) (vic : ℕ → Option ℕ)
    → Fetched f f' xs
    → At s vic f
    → At s vic f'
Fetched-At s vic h (a, b) = (ap (λ (t : Ftl). t.ssd) h.same_ftl ∙ a, h.same_vic ∙ b)

module _ (s : SsdInfo) (vic : ℕ → Option ℕ) (counted : Counted s vic) where
  fetch_chip-Fetched :
      (pg : ℕ) (f : Fetch) (c : ℕ × ℕ)
      → chip_index c.0 c.1 < num_chips
      → pg < num_pages_per_block
      → At s vic f
      → Fetched f (fetch_chip pg f c) (chip_lpas s vic pg c)
  unfolding fetch_chip get_vic_blk
  fetch_chip-Fetched pg f c k h (a, b) =
      subst (λ t. Fetched f (fetch_chip pg f c) (option_lpas t pg (vic (chip_index c.0 c.1)))) a
        (subst
          (λ v. Fetched f (fetch_chip pg f c) (option_lpas f.g.ftl.ssd pg (v (chip_index c.0 c.1))))
          b
          (fetch_option-Fetched pg f c (f.g.gcm.vic_blks (chip_index c.0 c.1)) (λ v e.
            subst (λ t. PageCounted t v pg) (sym a)
              (counted (chip_index c.0 c.1) v pg k
                (ap (λ (w : ℕ → Option ℕ). w (chip_index c.0 c.1)) (sym b) ∙ e) h))))

  fetch_chips-Fetched :
      (pg : ℕ) (f : Fetch)
      → pg < num_pages_per_block
      → At s vic f
      → Fetched f (foldl (fetch_chip pg) f all_chips) (chips_lpas s vic pg all_chips)
  fetch_chips-Fetched pg f h at =
      let f1 = fetch_chip pg f (0, 0) in
      let f2 = fetch_chip pg f1 (0, 1) in
      let first = fetch_chip-Fetched pg f (0, 0) (omega arith) h at in
      let second = fetch_chip-Fetched pg f1 (0, 1) (omega arith) h (Fetched-At s vic first at) in
      Fetched-append f f1 f2 (chip_lpas s vic pg (0, 0)) (chip_lpas s vic pg (0, 1) ++ []) first
        (Fetched-append f1 f2 f2 (chip_lpas s vic pg (0, 1)) [] second (Fetched-none f2))

  pub fetch_pages-Fetched :
      (n pg : ℕ) (f : Fetch)
      → n + pg ≤ num_pages_per_block
      → At s vic f
      → Fetched f (fetch_pages n pg f) (pages_lpas s vic n pg)
  unfolding fetch_pages
  fetch_pages-Fetched zero pg f h at = Fetched-none f
  fetch_pages-Fetched (suc n) pg f h at =
      let first = fetch_chips-Fetched pg f (omega arith) at in
      Fetched-append f (foldl (fetch_chip pg) f all_chips) _ (chips_lpas s vic pg all_chips)
        (pages_lpas s vic n (pg + 1)) first
        (fetch_pages-Fetched n (pg + 1) (foldl (fetch_chip pg) f all_chips) (omega arith)
          (Fetched-At s vic first at))
