-- ===== src/Export/Stranger.antt =====
-- Which payers a copy of a person's data shows.
use ctech_wallet.Prelude.{
  String, Bool, ◌≡◌, ◌⊎◌, inl, inr, refl, true, false, ℕ, zero, suc, leb, if◌then◌else◌, Option,
  none, some, List, [], ◌∷◌, ◌++◌, arith, Bool-cases,
}
use ctech_wallet.Prelude.Lists.{All, All-append}
use ctech_wallet.Domain.Model.{PixDeposit, DepositStatus, Wallet, User}
use ctech_wallet.Store.Problem.{Result, bind_keeps, ◌>>=◌, reads}
use ctech_wallet.Store.Tables.{same_deposit_status}
use ctech_wallet.Export.{
  ExportItem, ExportFile, ExportFiles, ExportSource, Pager, Zip, change, no_files, deposit_row,
  ledger_row, settings_row, wallet_row, withdrawal_row, hold_row, sandbox_row, product_row,
  audit_row, with_item, with_end, begin_file, add_item, end_file, add_all, whole, put_row,
  add_items, go_on, read_pages, finish, list_file, ledger_files, own_payers, settings_view,
  settings_file, write_export, export_part, file_limit,
}

-- A deposit names no payer, unless it is confirmed.
abbrev pub HasOwnPayer : ExportItem → Type 0
HasOwnPayer (deposit_row d) =
    (d.status ≡ DepositStatus.confirmed) ⊎ ((d.payer_cpf ≡ "") × (d.payer_name ≡ ""))
HasOwnPayer _ = Unit

abbrev pub ShowsNoStranger : ExportFiles → Type 0
ShowsNoStranger f = All (λ file. All HasOwnPayer file.items) f.written

confirmed_only :
    (status : DepositStatus)
    → same_deposit_status status DepositStatus.confirmed ≡ true
    → status ≡ DepositStatus.confirmed
confirmed_only DepositStatus.confirmed h = refl
confirmed_only DepositStatus.pending h = ground arith
confirmed_only DepositStatus.rejected_cpf h = ground arith
confirmed_only DepositStatus.refund_pending h = ground arith
confirmed_only DepositStatus.expired h = ground arith
confirmed_only DepositStatus.refunded h = ground arith
confirmed_only DepositStatus.refund_failed h = ground arith

own_payers-HasOwnPayer :
    (ds : List PixDeposit) → All (λ d. HasOwnPayer (deposit_row d)) (own_payers ds)
unfolding own_payers
own_payers-HasOwnPayer [] = tt
own_payers-HasOwnPayer (d ∷ ds) =
    elim (Bool-cases (same_deposit_status d.status DepositStatus.confirmed)) [
      | inl mine ↦ rw mine (inl (confirmed_only d.status mine), own_payers-HasOwnPayer ds)
      | inr other ↦ rw other (inr (refl, refl), own_payers-HasOwnPayer ds)
    ]

-- A step after which no file names a stranger, where none did before.
record Keeps {A : Type 0} (m : ExportFiles → Result A × ExportFiles) : Type 0 where
  keeps : (s : ExportFiles) → ShowsNoStranger s → ShowsNoStranger (m s).1

then-Keeps :
    {A B : Type 0} {m : ExportFiles → Result A × ExportFiles}
    {f : A → ExportFiles → Result B × ExportFiles}
    → Keeps m
    → ((a : A) → Keeps (f a))
    → Keeps (m >>= f)
then-Keeps {m} {f} first rest = record {
  keeps = λ s h.
      bind_keeps ShowsNoStranger m f s (first.keeps s h)
        (λ a _. (rest a).keeps _ (first.keeps s h));
}

read-Keeps :
    {A B : Type 0} (r : ExportFiles → Result A) {f : A → ExportFiles → Result B × ExportFiles}
    → ((a : A) → Keeps (f a))
    → Keeps (reads r >>= f)
read-Keeps r rest = then-Keeps (record { keeps = λ s h. h }) rest

with_item_own :
    (i : ExportItem) (fs : List ExportFile)
    → HasOwnPayer i
    → All (λ file. All HasOwnPayer file.items) fs
    → All (λ file. All HasOwnPayer file.items) (with_item i fs)
with_item_own i [] own h = tt
with_item_own i (f ∷ fs) own (h, hs) = (All-append HasOwnPayer f.items (i ∷ []) h (own, tt), hs)

with_end_own :
    (cut : Bool) (fs : List ExportFile)
    → All (λ file. All HasOwnPayer file.items) fs
    → All (λ file. All HasOwnPayer file.items) (with_end cut fs)
with_end_own cut [] h = tt
with_end_own cut (f ∷ fs) h = h

module _ (z : Zip) where
  begin_file-Keeps : (name : String) → Keeps (begin_file z name)
  unfolding begin_file
  begin_file-Keeps name = read-Keeps (z.begins name) (λ _. record { keeps = λ s h. (tt, h) })

  add_item-Keeps : (i : ExportItem) → HasOwnPayer i → Keeps (add_item z i)
  unfolding add_item
  add_item-Keeps i own =
      read-Keeps (z.adds i) (λ _. record { keeps = λ s h. with_item_own i s.written own h })

  end_file-Keeps : (name : String) (cut : Bool) → Keeps (end_file z name cut)
  unfolding end_file
  end_file-Keeps name cut =
      then-Keeps
        {m = change
          (λ s. record s { cut_files = if cut then s.cut_files ++ (name ∷ []) else s.cut_files })}
        (record { keeps = λ s h. h })
        (λ _.
          read-Keeps (z.ends cut)
            {f = λ _. change (λ s. record s { written = with_end cut s.written })}
            (λ _. record { keeps = λ s h. with_end_own cut s.written h }))

  module _ {A : Type 0} (f : A → ExportItem) (name : String) where
    add_all-Keeps : (xs : List A) → All (λ x. HasOwnPayer (f x)) xs → Keeps (add_all z f name xs)
    unfolding add_all
    add_all-Keeps [] own = record { keeps = λ s h. h }
    add_all-Keeps (x ∷ xs) (one, own) =
        then-Keeps (add_item-Keeps (f x) one) (λ _. add_all-Keeps xs own)

    whole-Keeps :
        (xs : List A) (cut : Bool) → All (λ x. HasOwnPayer (f x)) xs → Keeps (whole z f name xs cut)
    unfolding whole
    whole-Keeps [] cut own = record { keeps = λ s h. h }
    whole-Keeps (x ∷ xs) cut own =
        then-Keeps (begin_file-Keeps name)
          (λ _. then-Keeps (add_all-Keeps (x ∷ xs) own) (λ _. end_file-Keeps name cut))

    module _ (own : (x : A) → HasOwnPayer (f x)) where
      throughout : (xs : List A) → All (λ x. HasOwnPayer (f x)) xs
      throughout [] = tt
      throughout (x ∷ xs) = (own x, throughout xs)

      every-Keeps : (xs : List A) (cut : Bool) → Keeps (whole z f name xs cut)
      every-Keeps xs cut = whole-Keeps xs cut (throughout xs)

      put_row-Keeps : (n : ℕ) (x : A) → Keeps (put_row z f name n x)
      unfolding put_row
      put_row-Keeps zero x = then-Keeps (begin_file-Keeps name) (λ _. add_item-Keeps (f x) (own x))
      put_row-Keeps (suc n) x = add_item-Keeps (f x) (own x)

      add_items-Keeps : (max n : ℕ) (xs : List A) → Keeps (add_items z f name max n xs)
      unfolding add_items
      add_items-Keeps max n [] = record { keeps = λ s h. h }
      add_items-Keeps max n (x ∷ xs) =
          let rest = then-Keeps (put_row-Keeps n x) (λ _. add_items-Keeps max (suc n) xs) in
          elim (Bool-cases (leb max n)) [
            | inl full ↦ record { keeps = λ s h. rw full h }
            | inr place ↦ record { keeps = λ s h. rw place (rest.keeps s h) }
          ]

      go_on-Keeps :
          (max : ℕ) (r : ℕ × Bool) (last : Option String)
          (again : Option String → ℕ → ExportFiles → Result (ℕ × Bool) × ExportFiles)
          → ((k : Option String) (n : ℕ) → Keeps (again k n))
          → Keeps (go_on z f name max r last again)
      go_on-Keeps max (n, true) last again h = record { keeps = λ s h. h }
      go_on-Keeps max (n, false) none again h = record { keeps = λ s h. h }
      go_on-Keeps max (n, false) (some key) again h = h (some key) n

      read_pages-Keeps :
          (max fuel : ℕ) (next : Pager A) (start : Option String) (n : ℕ)
          → Keeps (read_pages z f name max fuel next start n)
      unfolding read_pages
      read_pages-Keeps max zero next start n = record { keeps = λ s h. h }
      read_pages-Keeps max (suc fuel) next start n =
          read-Keeps (λ s. next start)
            (λ page. then-Keeps (add_items-Keeps max n page.0) (λ r.
              go_on-Keeps max r page.1 (read_pages z f name max fuel next)
                (read_pages-Keeps max fuel next)))

      finish-Keeps : (r : ℕ × Bool) → Keeps (finish z f name r)
      unfolding finish
      finish-Keeps (zero, cut) = record { keeps = λ s h. h }
      finish-Keeps (suc n, cut) = end_file-Keeps name cut

      list-Keeps : (fuel max : ℕ) (next : Pager A) → Keeps (list_file z f name fuel max next)
      unfolding list_file
      list-Keeps fuel max next =
          then-Keeps (read_pages-Keeps max fuel next none 0) (λ r. finish-Keeps r)

  settings_file-Keeps : (u : Option User) → Keeps (settings_file z u)
  unfolding settings_file
  settings_file-Keeps none = record { keeps = λ s h. h }
  settings_file-Keeps (some u) =
      every-Keeps settings_row "settings.json" (λ _. tt) (settings_view u ∷ []) false

  module _ (fuel max : ℕ) (src : ExportSource) (sub : String) where
    ledger_files-Keeps : (ws : List Wallet) → Keeps (ledger_files z fuel max src sub ws)
    unfolding ledger_files
    ledger_files-Keeps [] = record { keeps = λ s h. h }
    ledger_files-Keeps (w ∷ ws) =
        then-Keeps (list-Keeps ledger_row _ (λ _. tt) fuel max _) (λ _. ledger_files-Keeps ws)

    write_export-Keeps : Keeps (write_export z fuel max src sub)
    unfolding write_export
    write_export-Keeps =
        read-Keeps (λ _. src.wallets sub)
          (λ wallets. then-Keeps (every-Keeps wallet_row _ (λ _. tt) wallets false) (λ _.
            then-Keeps (ledger_files-Keeps wallets) (λ _.
              read-Keeps (λ _. src.deposits sub)
                (λ deps.
                  then-Keeps
                    (whole-Keeps deposit_row _ (own_payers deps) false
                      (own_payers-HasOwnPayer deps))
                    (λ _.
                      read-Keeps (λ _. src.withdrawals sub)
                        (λ wds. then-Keeps (every-Keeps withdrawal_row _ (λ _. tt) wds false) (λ _.
                          read-Keeps (λ _. src.holds sub)
                            (λ holds.
                              then-Keeps (every-Keeps hold_row _ (λ _. tt) holds false) (λ _.
                                then-Keeps (list-Keeps sandbox_row _ (λ _. tt) fuel max _) (λ _.
                                  then-Keeps (list-Keeps product_row _ (λ _. tt) fuel max _) (λ _.
                                    read-Keeps (λ _. src.user sub)
                                      (λ u. then-Keeps (settings_file-Keeps u) (λ _.
                                        read-Keeps (λ _. src.audit sub _)
                                          (λ audit.
                                            then-Keeps (every-Keeps audit_row _ (λ _. tt) audit _)
                                              (λ _. record { keeps = λ s h. h })))))))))))))))

-- Whatever the reads and the zip answer and wherever the export stops, no file of it names a payer on
-- a deposit that is not confirmed.
pub export_part-ShowsNoStranger :
    (z : Zip) (fuel max_items : ℕ) (src : ExportSource) (sub : String)
    → ShowsNoStranger (export_part z fuel max_items src sub).1
unfolding export_part
export_part-ShowsNoStranger z fuel max_items src sub =
    (write_export-Keeps z fuel (file_limit max_items) src sub).keeps no_files tt
