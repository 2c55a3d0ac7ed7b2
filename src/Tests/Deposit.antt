-- ===== src/Tests/Deposit.antt =====
-- The theorems on ConfirmDeposit at work on a pending deposit of the sample wallet.
use ctech_wallet.Prelude.{String, ap, List, [], ◌∷◌, arith}
use ctech_wallet.Prelude.Int.{pos}
use ctech_wallet.Prelude.Table.{write}
use ctech_wallet.Domain.Model.{PixDeposit, DepositStatus}
use ctech_wallet.Store.Problem.{Result, ok, err}
use ctech_wallet.Store.Memory.{memory-IsDynamo}
use ctech_wallet.Store.Lawful.{Invariant}
use ctech_wallet.Service.{World, Env, Charge, completed, Payment}
use ctech_wallet.Service.Deposit.{confirm_deposit}
use ctech_wallet.Service.Deposit.Books.{
  AnswersSoundly, OnlyRefundsSince, confirm_deposit-Invariant, confirm_deposit-OnlyRefundsSince,
}
use ctech_wallet.Tests.Sample.{sample, sample-Invariant}
use ctech_wallet.Tests.Service.{env}

abbrev scan : String → Payment
scan e2e = record { e2e_id = e2e; amount = pos 300; payer_cpf = ""; payer_name = ""; refunds = [] }

abbrev pub charge_by : String → List Payment → Charge
charge_by cpf payments = record {
  txid = "d1";
  amount = pos 300;
  qr_code = "";
  status = completed;
  payer_name = "";
  payer_cpf = cpf;
  e2e_id = "e2e1";
  refunds = [];
  payments = payments;
}

-- A rail that answers each query with one charge.
abbrev asked : Charge → Env
asked c = record env { query_deposit = λ txid w. ok c }

abbrev pub waiting : PixDeposit
waiting = record {
  txid = "d1";
  wallet_id = "WALLET#1";
  user_id = "ana";
  amount_expected = pos 300;
  status = DepositStatus.pending;
  e2e_id = "";
  payer_cpf = "";
  payer_name = "";
  qr_code_payload = "";
  qr_code_image = "";
  created_at = "2026-11-26T11:00:00Z";
  ttl = pos 0;
}

abbrev pub due : World
due = record { db = record sample { deposits = write "d1" waiting sample.deposits }; calls = [] }

-- Paid twice, by a payer whom the rail names in part.
abbrev twice : Charge
twice = charge_by "***222333**" (scan "e2e1" ∷ scan "e2e2" ∷ [])

abbrev charge_or : Charge → Result Charge → Charge
charge_or c (ok d) = d
charge_or c (err e) = c

twice_answers : AnswersSoundly (asked twice)
twice_answers txid w c e = let same = ap (charge_or twice) e in rw⁻¹ same (ground arith, tt)

due-Invariant : Invariant due.db
due-Invariant = record {
  sound = sample-Invariant.sound;
  once = sample-Invariant.once;
  guarded = sample-Invariant.guarded;
}

confirm_deposit-Invariant_example : Invariant (confirm_deposit (asked twice) "d1" "" "" due).1.db
confirm_deposit-Invariant_example =
    confirm_deposit-Invariant (asked twice) "d1" "" "" due memory-IsDynamo twice_answers
      due-Invariant

confirm_deposit-OnlyRefundsSince_example :
    OnlyRefundsSince [] (confirm_deposit (asked twice) "d1" "" "" due).1
confirm_deposit-OnlyRefundsSince_example =
    confirm_deposit-OnlyRefundsSince (asked twice) "d1" "" "" due twice_answers
