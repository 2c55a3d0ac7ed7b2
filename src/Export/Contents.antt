-- ===== src/Export/Contents.antt =====
-- What a list file of the export holds, where the zip takes all that is written.
use mathlib.Core.List.{append_assoc, append-nil}
use ctech_wallet.Prelude.{
  String, ◌≡◌, refl, ap, ◌∙◌, Bool, false, ℕ, ◌≤◌, none, List, [], ◌∷◌, ◌++◌, ltb, if◌then◌else◌,
}
use ctech_wallet.Prelude.Lists.{length}
use ctech_wallet.Store.Problem.{ok}
use ctech_wallet.Export.{
  Pager, Zip, ExportItem, ExportFile, ExportFiles, begin_file, add_item, end_file, add_all, whole,
  list_file,
}
use ctech_wallet.Export.Pages.{take, Pages, list_file-take}

-- A zip that takes everything.
pub record TakesAll (z : Zip) : Type 0 where
  pub begins : (name : String) (s : ExportFiles) → z.begins name s ≡ ok tt
  pub adds : (i : ExportItem) (s : ExportFiles) → z.adds i s ≡ ok tt
  pub ends : (cut : Bool) (s : ExportFiles) → z.ends cut s ≡ ok tt

abbrev pub to_items : {A : Type 0} → (A → ExportItem) → List A → List ExportItem
to_items f [] = []
to_items f (x ∷ xs) = f x ∷ to_items f xs

-- The files with one more, which holds the items; no items are no file.
abbrev pub with_file : String → List ExportItem → Bool → ExportFiles → ExportFiles
with_file name [] cut s = s
with_file name (i ∷ is) cut s = record {
  written = record { name = name; items = i ∷ is; truncated = cut } ∷ s.written;
  files = s.files ++ (name ∷ []);
  cut_files = if cut then s.cut_files ++ (name ∷ []) else s.cut_files;
}

-- The latest file with more items.
abbrev with_items : List ExportItem → ExportFile → List ExportFile → ExportFiles → ExportFiles
with_items is file others s = record s {
  written = record file { items = file.items ++ is } ∷ others;
}

module _ (z : Zip) (law : TakesAll z) {A : Type 0} (f : A → ExportItem) where
  add_all_items :
      (name : String) (xs : List A) (file : ExportFile) (others : List ExportFile) (s : ExportFiles)
      → s.written ≡ file ∷ others
      → add_all z f name xs s ≡ (ok tt, with_items (to_items f xs) file others s)
  unfolding add_all add_item
  add_all_items name [] file others s here =
      rw (append-nil file.items) (ap (λ w. (ok tt, record s { written = w })) here)
  add_all_items name (x ∷ xs) file others s here =
      let longer : ExportFile = record file { items = file.items ++ (f x ∷ []) } in
      let next : ExportFiles = record s { written = longer ∷ others } in
      let step : add_item z (f x) s ≡ (ok tt, next) = rw (law.adds (f x) s, here) refl in
      rw
        (
          step,
          add_all_items name xs longer others next refl,
          append_assoc file.items (f x ∷ []) (to_items f xs),
        )
        refl

  whole_holds :
      (name : String) (xs : List A) (cut : Bool) (s : ExportFiles)
      → whole z f name xs cut s ≡ (ok tt, with_file name (to_items f xs) cut s)
  unfolding whole begin_file end_file
  whole_holds name [] cut s = refl
  whole_holds name (x ∷ xs) cut s =
      let file : ExportFile = record { name = name; items = []; truncated = false } in
      let opened : ExportFiles = record s {
        written = file ∷ s.written;
        files = s.files ++ (name ∷ []);
      } in
      rw (law.begins name s, add_all_items name (x ∷ xs) file s.written opened refl, law.ends cut _)
        refl

-- Where the zip takes all that is written, one list of the export becomes a file of its name with the
-- first rows of its source, in order and up to the limit, and its truncated flag says whether there
-- were more; a list without rows becomes none. There is fuel for the pages that the source has.
pub list_file_holds :
    (z : Zip) {A : Type 0} (f : A → ExportItem) (name : String) (fuel max k : ℕ) (next : Pager A)
    (rows : List A) (s : ExportFiles)
    → TakesAll z
    → Pages next none k rows
    → k ≤ fuel
    → list_file z f name fuel max next s
      ≡ (ok tt, with_file name (to_items f (take max rows)) (ltb max (length rows)) s)
list_file_holds z f name fuel max k next rows s law pages enough =
    list_file-take z f name fuel max k next rows s pages enough
    ∙ whole_holds z law f name (take max rows) (ltb max (length rows)) s
