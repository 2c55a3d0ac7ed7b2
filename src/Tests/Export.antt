-- ===== src/Tests/Export.antt =====
-- The theorems on the data export at work on a person with one wallet and two pages of purchases.
use ctech_wallet.Prelude.{◌≡◌, refl, true, none, some, [], ◌∷◌, arith}
use ctech_wallet.Domain.Model.{PixDeposit, DepositStatus}
use ctech_wallet.Store.Problem.{ok, err, outage}
use ctech_wallet.Erasure.{Purchase}
use ctech_wallet.Export.{
  Pager, Zip, ExportSource, whole, list_file, export_part, no_files, sandbox_row, own_payers,
  read_pages, add_items, put_row, begin_file, add_item, end_file, finish, add_all,
}
use ctech_wallet.Export.Contents.{with_file, list_file_holds}
use ctech_wallet.Export.Pages.{last, more, list_file-take}
use ctech_wallet.Export.Stranger.{ShowsNoStranger, export_part-ShowsNoStranger}
use ctech_wallet.Service.Digest.{prefixed}
use ctech_wallet.Tests.Sample.{real_wallet, first_deposit}
use ctech_wallet.Tests.Deposit.{waiting}

abbrev bought : Purchase
bought = record { status = "completed"; created_at = "2026-11-26T12:00:00Z" }

-- Two purchases on the first page, one on the second.
abbrev two_pages : Pager Purchase
two_pages none = ok (bought ∷ bought ∷ [], some "next")
two_pages (some key) = ok (bought ∷ [], none)

-- A zip that takes everything, and one that breaks at the first item.
abbrev zip : Zip
zip = record {
  begins = λ name s. ok tt;
  adds = λ i s. ok tt;
  ends = λ cut s. ok tt;
  closes = λ s. ok tt;
}

abbrev torn : Zip
torn = record zip { adds = λ i s. err (outage "connection closed") }

list_file-take_example :
    list_file torn sandbox_row "purchases.json" 5 2 two_pages no_files
    ≡ whole torn sandbox_row "purchases.json" (bought ∷ bought ∷ []) true no_files
list_file-take_example =
    list_file-take torn sandbox_row "purchases.json" 5 2 2 two_pages (bought ∷ bought ∷ bought ∷ [])
      no_files (more refl (last refl)) (ground arith)

list_file_holds_example : list_file zip sandbox_row "purchases.json" 5 2 two_pages no_files ≡ (
  ok tt,
  with_file "purchases.json" (sandbox_row bought ∷ sandbox_row bought ∷ []) true no_files,
)
list_file_holds_example =
    list_file_holds zip sandbox_row "purchases.json" 5 2 2 two_pages (bought ∷ bought ∷ bought ∷ [])
      no_files (record { begins = λ name s. refl; adds = λ i s. refl; ends = λ cut s. refl })
      (more refl (last refl)) (ground arith)

-- A deposit that someone else paid, and that goes back.
abbrev strange : PixDeposit
strange = record waiting {
  status = DepositStatus.refund_pending;
  payer_cpf = "11122233344";
  payer_name = "Bia";
}

abbrev source : ExportSource
source = record {
  wallets = λ sub. ok (real_wallet ∷ []);
  statement = λ id size start. ok (first_deposit ∷ [], none);
  deposits = λ sub. ok (strange ∷ []);
  withdrawals = λ sub. ok [];
  holds = λ sub. ok [];
  sandbox_purchases = λ sub size. two_pages;
  product_purchases = λ sub size start. ok ([], none);
  user = λ sub. ok none;
  audit = λ sub size. ok [];
}

export_written :
    (export_part zip 5 2 source "ana").1.files
    ≡ "wallets.json" ∷ "ledger-real.json" ∷ "deposits.json" ∷ "purchases-sandbox.json" ∷ []
unfolding export_part read_pages add_items prefixed put_row begin_file add_item end_file finish
    whole add_all
export_written = refl

export_cut : (export_part zip 5 2 source "ana").1.cut_files ≡ "purchases-sandbox.json" ∷ []
unfolding export_part read_pages add_items prefixed put_row begin_file add_item end_file finish
    whole add_all
export_cut = refl

stranger_removed :
    own_payers (strange ∷ []) ≡ record strange { payer_cpf = ""; payer_name = "" } ∷ []
unfolding own_payers
stranger_removed = refl

export_part-ShowsNoStranger_example : ShowsNoStranger (export_part zip 5 2 source "ana").1
export_part-ShowsNoStranger_example = export_part-ShowsNoStranger zip 5 2 source "ana"
