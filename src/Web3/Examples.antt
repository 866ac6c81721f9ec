-- ===== src/Web3/Examples.antt =====
-- The theorems about the jobs at a concrete state, over a chain that answers.
use exchange_backend.Base.{ℕ, ◌+◌, ◌≡◌, refl, inl, some, none, [], ◌∷◌}
use exchange_backend.Base.Lists.{All}
use exchange_backend.Base.Action.{ok, catch, ◌>>=◌}
use exchange_backend.Custody.Entity.{pending, select_withdrawal, select_deposit}
use exchange_backend.Custody.World.{withdrawal_rows}
use exchange_backend.Custody.Consumers.{receipt, TransactionReceipt}
use exchange_backend.Custody.Examples.{env, lawful, vault, withdrawal, deposit}
use exchange_backend.Web3.Service.{
  Web3, Node, eth, ChainReceipt, get_confirmations, find_receipt, process_deposit_job,
  process_withdrawal_job,
}
use exchange_backend.Web3.Receipts.{IsConfirmed, find_receipt-IsConfirmed}
use exchange_backend.Web3.Jobs.{
  IsCounted, statuses, process_deposit_job-statuses, process_withdrawal_job-IsCounted,
}

abbrev chain_receipt : ChainReceipt
chain_receipt = record {
  transaction_hash = "0x1";
  from = "0xB";
  to = "0xC";
  status = 1;
  gas_used = "21000";
  block_hash = "0x3";
}

abbrev chain : Web3
chain = record {
  State = ℕ;
  get_transaction_receipt = λ network hash s. (some (some chain_receipt), s + 1);
  get_transaction = λ network hash s. (some (some (some 100)), s + 1);
  get_block_number = λ network s. (some 115, s + 1);
  tx_list = λ network address block s.
      (some (record { hash = "0x2"; input = "0xa9059cbb"; block_number = 90 } ∷ []), s + 1);
  decode_parameters = λ input. some (record { receiver = "0xA"; amount = "30" });
  from_wei = λ amount. some amount;
  to_lower_case = λ text. text;
  number_text = λ n. "30";
}

abbrev node : Node env chain
node = record { vault = vault; chain = 0 }

abbrev found : TransactionReceipt
found = record {
  status = 1;
  confirmation_count = 15;
  gas_used = "21000";
  block_hash = "0x3";
  to = "0xC";
  from = "0xB";
}

receipt_example_run :
    (find_receipt env chain (some "0x1") (some "0xB") none node).0 ≡ ok (receipt found)
unfolding find_receipt get_confirmations catch ◌>>=◌
receipt_example_run = refl

find_receipt-IsConfirmed_example : IsConfirmed env chain (some "0xB") eth (receipt found)
find_receipt-IsConfirmed_example =
    find_receipt-IsConfirmed env chain (some "0x1") (some "0xB") none node (receipt found)
      receipt_example_run

process_deposit_job-statuses_example :
    statuses env chain lawful
      (process_deposit_job env chain (select_deposit deposit ∷ []) node).1.vault
    ≡ pending ∷ []
process_deposit_job-statuses_example =
    process_deposit_job-statuses env chain lawful (select_deposit deposit ∷ []) node

process_withdrawal_job-IsCounted_example : All (IsCounted env chain lawful) (
    withdrawal_rows env
      (process_withdrawal_job env chain (select_withdrawal withdrawal ∷ []) node).1.vault)
process_withdrawal_job-IsCounted_example =
    process_withdrawal_job-IsCounted env chain lawful (select_withdrawal withdrawal ∷ []) node
      (inl refl, tt)
