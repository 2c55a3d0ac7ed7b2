-- ===== src/Export.antt =====
-- api/internal/services/data_export.go: the copy of a person's data. Reads and the zip are
-- parameters; the pages of a list are asked for on fuel; the text of the README is left out.
pub mod Pages
pub mod Contents
pub mod Stranger
use ctech_wallet.Prelude.{
  String, Bool, true, false, ◌==◌, ◌++◌, ℕ, zero, suc, Option, none, some, List, [], ◌∷◌, leb,
  if◌then◌else◌,
}
use ctech_wallet.Prelude.Lists.{length}
use ctech_wallet.Domain.Model.{
  Wallet, wallet_type_text, LedgerEntry, PixDeposit, DepositStatus, Withdrawal, Hold, SelfExclusion,
  GameLimits, GameDepositCounters, RealDailyCounters, User,
}
use ctech_wallet.Store.Problem.{Result, ok, err, panicked, ◌>>=◌, ◌>>◌, pure, raise, reads}
use ctech_wallet.Store.Tables.{same_deposit_status}
use ctech_wallet.Erasure.{Purchase, AuditRow}
use ctech_wallet.Service.Digest.{prefixed}

abbrev pub export_max_items : ℕ
export_max_items = 100000

abbrev pub export_page_size : ℕ
export_page_size = 100

abbrev pub audit_export_limit : ℕ
audit_export_limit = 1000

-- The limit of one file; a zero falls back to the constant.
unfoldable pub file_limit : ℕ → ℕ
file_limit zero = export_max_items
file_limit (suc n) = suc n

-- settingsView, of the fields that the model's User has.
pub record Settings : Type 0 where
  pub terms_addendum_version : String
  pub gambling_addendum_version : String
  pub self_exclusion : Option SelfExclusion
  pub game_limits : Option GameLimits
  pub game_deposit_counters : Option GameDepositCounters
  pub real_daily_counters : Option RealDailyCounters

unfoldable pub settings_view : User → Settings
settings_view u = record {
  terms_addendum_version = u.terms_addendum_version;
  gambling_addendum_version = u.gambling_addendum_version;
  self_exclusion = u.self_exclusion;
  game_limits = u.game_limits;
  game_deposit_counters = u.game_deposit_counters;
  real_daily_counters = u.real_daily_counters;
}

pub data ExportItem : Type 0 where
  wallet_row : Wallet → ExportItem
  ledger_row : LedgerEntry → ExportItem
  deposit_row : PixDeposit → ExportItem
  withdrawal_row : Withdrawal → ExportItem
  hold_row : Hold → ExportItem
  sandbox_row product_row : Purchase → ExportItem
  settings_row : Settings → ExportItem
  audit_row : AuditRow → ExportItem

pub record ExportFile : Type 0 where
  pub name : String
  pub items : List ExportItem
  pub truncated : Bool

-- exportFiles, each file with what it holds, and the names that the README lists.
pub record ExportFiles : Type 0 where
  pub written : List ExportFile
  pub files : List String
  pub cut_files : List String

-- A page of rows from a start key, and where it goes on.
abbrev pub Pager : Type 0 → Type 0
Pager A = Option String → Result (List A × Option String)

pub record ExportSource : Type 0 where
  pub wallets : String → Result (List Wallet)
  pub statement : String → ℕ → Pager LedgerEntry
  pub deposits : String → Result (List PixDeposit)
  pub withdrawals : String → Result (List Withdrawal)
  pub holds : String → Result (List Hold)
  pub sandbox_purchases : String → ℕ → Pager Purchase
  pub product_purchases : String → ℕ → Pager Purchase
  pub user : String → Result (Option User)
  pub audit : String → ℕ → Result (List AuditRow)

abbrev pub no_files : ExportFiles
no_files = record { written = []; files = []; cut_files = [] }

-- The zip that the export is written into: whether it takes a new file, an item of it, the end of it,
-- and at last the README and the end of the zip.
pub record Zip : Type 0 where
  pub begins : String → ExportFiles → Result Unit
  pub adds : ExportItem → ExportFiles → Result Unit
  pub ends : Bool → ExportFiles → Result Unit
  pub closes : ExportFiles → Result Unit

abbrev pub change : (ExportFiles → ExportFiles) → ExportFiles → Result Unit × ExportFiles
change g s = (ok tt, g s)

abbrev pub with_item : ExportItem → List ExportFile → List ExportFile
with_item i [] = []
with_item i (f ∷ fs) = record f { items = f.items ++ (i ∷ []) } ∷ fs

abbrev pub with_end : Bool → List ExportFile → List ExportFile
with_end cut [] = []
with_end cut (f ∷ fs) = record f { truncated = cut } ∷ fs

module _ (z : Zip) where
  -- BeginItems, and the file's name for the README.
  unfoldable pub begin_file : String → ExportFiles → Result Unit × ExportFiles
  begin_file name = do
    reads (z.begins name)
    change (λ s. record s {
      written = record { name = name; items = []; truncated = false } ∷ s.written;
      files = s.files ++ (name ∷ []);
    })

  -- Items.Add
  unfoldable pub add_item : ExportItem → ExportFiles → Result Unit × ExportFiles
  add_item i = do reads (z.adds i); change (λ s. record s { written = with_item i s.written })

  -- The name of a file that was cut, and Items.End.
  unfoldable pub end_file : String → Bool → ExportFiles → Result Unit × ExportFiles
  end_file name cut = do
    change (λ s. record s { cut_files = if cut then s.cut_files ++ (name ∷ []) else s.cut_files })
    reads (z.ends cut)
    change (λ s. record s { written = with_end cut s.written })

  module _ {A : Type 0} (f : A → ExportItem) (name : String) where
    unfoldable pub add_all : List A → ExportFiles → Result Unit × ExportFiles
    unfolding add_item
    add_all [] = pure tt
    add_all (x ∷ xs) = do add_item (f x); add_all xs

    -- whole: a list with no items writes no file.
    unfoldable pub whole : List A → Bool → ExportFiles → Result Unit × ExportFiles
    unfolding begin_file add_all end_file
    whole [] cut = pure tt
    whole (x ∷ xs) cut = do begin_file name; add_all (x ∷ xs); end_file name cut

    -- An item of list, after so many: the first begins the file.
    unfoldable pub put_row : ℕ → A → ExportFiles → Result Unit × ExportFiles
    unfolding begin_file add_item
    put_row zero x = do begin_file name; add_item (f x)
    put_row (suc n) x = add_item (f x)

    module _ (max : ℕ) where
      -- The inner loop of list: the items up to the limit, and whether one was left over.
      unfoldable pub add_items : ℕ → List A → ExportFiles → Result (ℕ × Bool) × ExportFiles
      unfolding put_row
      add_items n [] = pure (n, false)
      add_items n (x ∷ xs) =
          if leb max n then pure (n, true) else (do put_row n x; add_items (suc n) xs)

      -- After a page: the limit, the last page, or the next one.
      abbrev pub go_on :
          ℕ × Bool
          → Option String
          → (Option String → ℕ → ExportFiles → Result (ℕ × Bool) × ExportFiles)
          → ExportFiles
          → Result (ℕ × Bool) × ExportFiles
      go_on (n, true) last again = pure (n, true)
      go_on (n, false) none again = pure (n, false)
      go_on (n, false) (some key) again = again (some key) n

      -- The pages of list, on fuel.
      unfoldable pub read_pages :
          ℕ → Pager A → Option String → ℕ → ExportFiles → Result (ℕ × Bool) × ExportFiles
      unfolding add_items
      read_pages zero next start n = raise panicked
      read_pages (suc fuel) next start n = do
        page ← reads (λ s. next start)
        r ← add_items n page.0
        go_on r page.1 (read_pages fuel next)

    -- What list does after its pages: nothing, where it began no file.
    unfoldable pub finish : ℕ × Bool → ExportFiles → Result Unit × ExportFiles
    unfolding end_file
    finish (zero, cut) = pure tt
    finish (suc n, cut) = end_file name cut

    -- list
    unfoldable pub list_file : ℕ → ℕ → Pager A → ExportFiles → Result Unit × ExportFiles
    unfolding read_pages finish
    list_file fuel max next = do r ← read_pages max fuel next none 0; finish r

-- Only of a confirmed deposit is the payer the person.
unfoldable pub own_payers : List PixDeposit → List PixDeposit
own_payers [] = []
own_payers (d ∷ ds) =
    let rest = own_payers ds in
    if same_deposit_status d.status DepositStatus.confirmed
    then d ∷ rest
    else record d { payer_cpf = ""; payer_name = "" } ∷ rest

module _ (z : Zip) where
  unfoldable pub settings_file : Option User → ExportFiles → Result Unit × ExportFiles
  unfolding settings_view whole
  settings_file none = pure tt
  settings_file (some u) = whole z settings_row "settings.json" (settings_view u ∷ []) false

  module _ (fuel max : ℕ) (src : ExportSource) (sub : String) where
    unfoldable pub ledger_files : List Wallet → ExportFiles → Result Unit × ExportFiles
    unfolding list_file
    ledger_files [] = pure tt
    ledger_files (w ∷ ws) = do
      list_file z ledger_row (prefixed (prefixed "ledger-" (wallet_type_text w.type)) ".json") fuel
          max (src.statement w.wallet_id export_page_size)
      ledger_files ws

    -- Write, after its first line
    unfoldable pub write_export : ExportFiles → Result Unit × ExportFiles
    unfolding ledger_files own_payers settings_file list_file whole
    write_export = do
      wallets ← reads (λ s. src.wallets sub)
      whole z wallet_row "wallets.json" wallets false
      ledger_files wallets
      deps ← reads (λ s. src.deposits sub)
      whole z deposit_row "deposits.json" (own_payers deps) false
      wds ← reads (λ s. src.withdrawals sub)
      whole z withdrawal_row "withdrawals.json" wds false
      holds ← reads (λ s. src.holds sub)
      whole z hold_row "holds.json" holds false
      list_file z sandbox_row "purchases-sandbox.json" fuel max
          (src.sandbox_purchases sub export_page_size)
      list_file z product_row "purchases-product.json" fuel max
          (src.product_purchases sub export_page_size)
      u ← reads (λ s. src.user sub)
      settings_file u
      audit ← reads (λ s. src.audit sub audit_export_limit)
      whole z audit_row "audit.json" audit (leb audit_export_limit (length audit))
      reads z.closes

-- Write: the answer, and what the zip holds, the latest file first.
unfoldable pub export_part : Zip → ℕ → ℕ → ExportSource → String → Result Unit × ExportFiles
unfolding write_export file_limit
export_part z fuel max_items src sub = write_export z fuel (file_limit max_items) src sub no_files
