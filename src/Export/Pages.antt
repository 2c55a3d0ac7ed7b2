-- ===== src/Export/Pages.antt =====
-- A list file holds the first rows of its source, in order, and says whether there were more.
use ctech_wallet.Prelude.{
  String, ◌≡◌, refl, ap, true, false, Bool, ℕ, zero, suc, ◌+◌, ◌≤◌, Option, none, some, List, [],
  ◌∷◌, ◌++◌, arith, ltb, leb, Bool-cases, inl, inr,
}
use ctech_wallet.Prelude.Lists.{length}
use ctech_wallet.Store.Problem.{Result, ok, pure, ◌>>=◌, Result-cases}
use ctech_wallet.Export.{
  Pager, Zip, go_on, add_items, put_row, add_all, add_item, begin_file, end_file, finish,
  read_pages, ExportItem, ExportFiles, list_file, whole,
}

module _ {A : Type 0} where
  -- The first rows.
  abbrev pub take : ℕ → List A → List A
  take zero xs = []
  take (suc n) [] = []
  take (suc n) (x ∷ xs) = x ∷ take n xs

  take_all : (n : ℕ) (xs : List A) → length xs ≤ n → take n xs ≡ xs
  take_all zero [] h = refl
  take_all zero (x ∷ xs) h = ground arith
  take_all (suc n) [] h = refl
  take_all (suc n) (x ∷ xs) h = ap (λ t. x ∷ t) (take_all n xs (omega (arith, h)))

  take_past :
      (n room : ℕ) (xs ys : List A) → length xs + room ≡ n → take n (xs ++ ys) ≡ xs ++ take room ys
  take_past n room [] ys h = let same : room ≡ n = omega (arith, h) in rw same refl
  take_past zero room (x ∷ xs) ys h = ground arith
  take_past (suc n) room (x ∷ xs) ys h = ap (λ t. x ∷ t) (take_past n room xs ys (omega (arith, h)))

  take_nil : (n : ℕ) → take n [] ≡ []
  take_nil zero = refl
  take_nil (suc n) = refl

  take_within : (n : ℕ) (xs ys : List A) → n ≤ length xs → take n (xs ++ ys) ≡ take n xs
  take_within zero xs ys h = refl
  take_within (suc n) [] ys h = ground arith
  take_within (suc n) (x ∷ xs) ys h = ap (λ t. x ∷ t) (take_within n xs ys (omega (arith, h)))

  -- What a source holds from a start key on, over so many pages.
  pub data Pages (next : Pager A) : Option String → ℕ → List A → Type 0 where
    last :
        {start : Option String} {rows : List A}
        → next start ≡ ok (rows, none)
        → Pages next start 1 rows
    more :
        {start : Option String} {key : String} {n : ℕ} {rows rest : List A}
        → next start ≡ ok (rows, some key)
        → Pages next (some key) n rest
        → Pages next start (suc n) (rows ++ rest)

module _ (z : Zip) {A : Type 0} (f : A → ExportItem) (name : String) (max : ℕ) where
  abbrev items : ℕ → List A → ExportFiles → Result (ℕ × Bool) × ExportFiles
  items n xs = add_items z f name max n xs

  -- More rows after some, where there is room.
  abbrev resume : List A → ℕ × Bool → ExportFiles → Result (ℕ × Bool) × ExportFiles
  resume ys (n, true) = pure (n, true)
  resume ys (n, false) = items n ys

  add_items-append :
      (n : ℕ) (xs ys : List A) (s : ExportFiles)
      → items n (xs ++ ys) s ≡ (items n xs >>= resume ys) s
  unfolding add_items
  add_items-append n [] ys s = refl
  add_items-append n (x ∷ xs) ys s = elim (Bool-cases (leb max n)) [
    | inl full ↦ rw full refl
    | inr room ↦ elim (Result-cases (put_row z f name n x s).0) [
      | inl (e, failed) ↦ rw (room, failed) refl
      | inr (u, put) ↦ rw (room, put) (add_items-append (suc n) xs ys (put_row z f name n x s).1)
    ]
  ]

  -- What follows a page is what its rows and those of the next pages would do.
  go_on_last :
      (m : ExportFiles → Result (ℕ × Bool) × ExportFiles)
      (again : Option String → ℕ → ExportFiles → Result (ℕ × Bool) × ExportFiles) (s : ExportFiles)
      → (m >>= λ r. go_on z f name max r none again) s ≡ m s
  go_on_last m again s = elim (Result-cases (m s).0) [
    | inl (e, failed) ↦ rw failed refl
    | inr ((n, true), h) ↦ rw h refl
    | inr ((n, false), h) ↦ rw h refl
  ]

  read_pages-all :
      (next : Pager A) (fuel k n : ℕ) (start : Option String) (rows : List A) (s : ExportFiles)
      → Pages next start k rows
      → k ≤ fuel
      → read_pages z f name max fuel next start n s ≡ items n rows s
  unfolding read_pages
  read_pages-all next zero k n start rows s (last e) enough = ground arith
  read_pages-all next (suc fuel) k n start rows s (last e) enough =
      rw (e, read_pages) (go_on_last (items n rows) _ s)
  read_pages-all next zero k n start rows s (more e pages) enough = ground arith
  read_pages-all next (suc fuel) k n start rows s (more {key} {rows = these} {rest} e pages)
        enough =
      elim (Result-cases (items n these s).0) [
        | inl (x, failed) ↦ rw (e, add_items-append n these rest s, failed) refl
        | inr ((m, true), h) ↦ rw (e, add_items-append n these rest s, h) refl
        | inr ((m, false), h) ↦
            rw (e, add_items-append n these rest s, h)
              (read_pages-all next fuel _ m (some key) rest (items n these s).1 pages
                (omega (arith, enough)))
      ]

  -- Rows after the first, and the end of the file.
  add_items-finish :
      (n room : ℕ) (xs : List A) (s : ExportFiles)
      → suc n + room ≡ max
      → (items (suc n) xs >>= finish z f name) s
        ≡ (add_all z f name (take room xs) >>= λ _. end_file z name (ltb room (length xs))) s
  unfolding add_items put_row finish add_all
  add_items-finish n room [] s h =
      let empty : ltb room 0 ≡ false = ground arith in rw (take_nil room, empty) refl
  add_items-finish n zero (x ∷ xs) s h =
      let full : leb max (suc n) ≡ true = ground (arith, h) in
      let cut : ltb 0 (suc (length xs)) ≡ true = ground arith in rw (full, cut) refl
  add_items-finish n (suc room) (x ∷ xs) s h =
      let place : leb max (suc n) ≡ false = ground (arith, h) in
      let same : ltb (suc room) (suc (length xs)) ≡ ltb room (length xs) = ground arith in
      elim (Result-cases (add_item z (f x) s).0) [
        | inl (e, failed) ↦ rw (place, failed) refl
        | inr (u, put) ↦
            rw (place, put, same)
              (add_items-finish (suc n) room xs (add_item z (f x) s).1 (omega (arith, h)))
      ]

  list_rows :
      (room : ℕ) (xs : List A) (s : ExportFiles)
      → room ≡ max
      → (items 0 xs >>= finish z f name) s ≡ whole z f name (take room xs) (ltb room (length xs)) s
  unfolding add_items put_row finish add_all whole
  list_rows room [] s h = rw (take_nil room) refl
  list_rows zero (x ∷ xs) s h = let full : leb max 0 ≡ true = ground (arith, h) in rw full refl
  list_rows (suc room) (x ∷ xs) s h =
      let place : leb max 0 ≡ false = ground (arith, h) in
      let same : ltb (suc room) (suc (length xs)) ≡ ltb room (length xs) = ground arith in
      let begun = (begin_file z name s).1 in
      elim (Result-cases (begin_file z name s).0) [
        | inl (e, failed) ↦ rw (place, failed) refl
        | inr (u, began) ↦ elim (Result-cases (add_item z (f x) begun).0) [
          | inl (e, failed) ↦ rw (place, began, failed) refl
          | inr (u2, put) ↦
              rw (place, began, put, same)
                (add_items-finish 0 room xs (add_item z (f x) begun).1 (omega (arith, h)))
        ]
      ]

-- One list of the export, whatever the zip answers, does what writing the source's rows as a whole
-- does, page after page, cut at the limit, and it is marked as cut exactly when there were more; with
-- fuel for the pages that the source has, it ends.
pub list_file-take :
    (z : Zip) {A : Type 0} (f : A → ExportItem) (name : String) (fuel max k : ℕ) (next : Pager A)
    (rows : List A) (s : ExportFiles)
    → Pages next none k rows
    → k ≤ fuel
    → list_file z f name fuel max next s ≡ whole z f name (take max rows) (ltb max (length rows)) s
unfolding list_file
list_file-take z f name fuel max k next rows s pages enough =
    let same = read_pages-all z f name max next fuel k 0 none rows s pages enough in
    rw same (list_rows z f name max max rows s refl)
