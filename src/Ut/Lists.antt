-- ===== src/Ut/Lists.antt =====
-- The list operations of utlist.h, counted.
use flashbench.Common.{ℕ, ◌+◌, ◌<◌, ◌≡◌, ap, ◌∙◌, List, [], ◌∷◌, length, length-append}
use flashbench.Common.Counts.{count, same, count-remove, count-snoc, length-remove}
use flashbench.Ut.{Ut}

module _ (ut : Ut) where
  open ut use {dl_append, dl_delete, dl_append_lem, dl_delete_lem}

  pub count-dl_append :
      (q p : ℕ) (l : List ℕ) → count p l ≡ 0 → count q (dl_append l p) ≡ count q l + same p q
  count-dl_append q p l h = ap (count q) (dl_append_lem l p h) ∙ count-snoc q p l

  pub length-dl_append :
      (p : ℕ) (l : List ℕ) → count p l ≡ 0 → length (dl_append l p) ≡ length l + 1
  length-dl_append p l h = ap length (dl_append_lem l p h) ∙ length-append l (p ∷ [])

  pub count-dl_delete :
      (q p : ℕ) (l : List ℕ) → 0 < count p l → count q (dl_delete l p) + same p q ≡ count q l
  count-dl_delete q p l h =
      ap (λ m. count q m + same p q) (dl_delete_lem l p h) ∙ count-remove q p l h

  pub length-dl_delete :
      (p : ℕ) (l : List ℕ) → 0 < count p l → length (dl_delete l p) + 1 ≡ length l
  length-dl_delete p l h = ap (λ m. length m + 1) (dl_delete_lem l p h) ∙ length-remove p l h
