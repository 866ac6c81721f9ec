-- ===== src/Web3/Service.antt =====
-- src/web3/web3.service.ts, and the processing of a job with it in src/web3/deposit.consumer.ts and
-- src/web3/withdrawal.consumer.ts.
use exchange_backend.Base.{
  ℕ, String, Bool, true, false, ◌&&◌, Option, none, some, List, is_text, ltb, str_eq, if◌then◌else◌,
}
use exchange_backend.Base.Int.{ℤ, pos, negsuc, sub_ℕ, covers}
use exchange_backend.Base.Action.{
  ignore, Action, Result, ok, err, pure, throw, catch, type_error, library_error, ◌>>=◌, ◌>>◌,
}
use exchange_backend.Custody.Entity.{WithdrawalJob, DepositJob}
use exchange_backend.Custody.World.{CustodyEnv, Vault}
use exchange_backend.Custody.Database.{save_error}
use exchange_backend.Custody.Consumers.{
  FoundTransaction, nothing, FoundReceipt, no_receipt, receipt, for_each, handle_deposit,
  handle_withdrawal,
}

pub data Network : Type 0 where
  bsc eth : Network

-- A receipt of the chain. Its status is 0 or 1.
pub record ChainReceipt : Type 0 where
  pub transaction_hash : String
  pub from : String
  pub to : String
  pub status : ℕ
  pub gas_used : String
  pub block_hash : String

pub record ListedTransaction : Type 0 where
  pub hash : String
  pub input : String
  pub block_number : ℕ

-- What `decodeParameters` gives for the names `receiver` and `amount`.
pub record Decoded : Type 0 where
  pub receiver : String
  pub amount : String

-- web3 and the scanner. A call gives `none` where it throws or is rejected. The block of a transaction that
-- is not confirmed is `none`.
pub record Web3 : Type 1 where
  pub State : Type 0
  pub get_transaction_receipt :
      Network → Option String → State → Option (Option ChainReceipt) × State
  pub get_transaction : Network → String → State → Option (Option (Option ℕ)) × State
  pub get_block_number : Network → State → Option ℕ × State
  pub tx_list : Network → String → Option ℕ → State → Option (List ListedTransaction) × State
  pub decode_parameters : String → Option Decoded
  pub from_wei : String → Option String
  pub to_lower_case : String → String
  pub number_text : ℕ → String

pub record Node (E : CustodyEnv) (C : Web3) : Type 0 where
  pub vault : Vault E
  pub chain : C.State

abbrev pub network_of : Option String → Network
network_of network = if is_text network "BEP20" then bsc else eth

-- `bscConfirmationCountTarget` and `ethConfirmationCountTarget`
abbrev pub target_count : Network → ℕ
target_count bsc = 4
target_count eth = 12

module _ (E : CustodyEnv) (C : Web3) where
  abbrev pub on_vault : {A : Type 0} → Action (Vault E) A → Action (Node E C) A
  on_vault m n = let (r, v) = m n.vault in (r, record n { vault = v })

  abbrev pub answered : {A : Type 0} → Option A → Result A
  answered none = err library_error
  answered (some a) = ok a

  abbrev pub on_chain : {A : Type 0} → (C.State → Option A × C.State) → Action (Node E C) A
  on_chain call n = let (r, s) = call n.chain in (answered r, record n { chain = s })

  abbrev pub computed : {A : Type 0} → Option A → Action (Node E C) A
  computed r n = (answered r, n)

  abbrev pub since : ℕ → Option (Option ℕ) → Action (Node E C) ℤ
  since current_block none = throw type_error
  since current_block (some none) = pure (pos 0)
  since current_block (some (some block)) = pure (sub_ℕ current_block block)

  abbrev pub try_confirmations : String → Option String → Action (Node E C) ℤ
  try_confirmations tx_hash network = do
    trx ← on_chain (C.get_transaction (network_of network) tx_hash)
    current_block ← on_chain (C.get_block_number (network_of network))
    since current_block trx

  -- Where it fails the count is undefined.
  unfoldable pub get_confirmations : String → Option String → Action (Node E C) (Option ℤ)
  get_confirmations tx_hash network =
      catch (do count ← try_confirmations tx_hash network; pure (some count))
        (λ error. do on_vault (save_error E error "Get confirmations function "); pure none)

  -- The receipt with its count, which is at least the target.
  abbrev pub counted_receipt : ChainReceipt → Network → Option ℤ → FoundReceipt
  counted_receipt g network none = no_receipt
  counted_receipt g network (some (negsuc n)) = no_receipt
  counted_receipt g network (some (pos n)) =
      if covers (pos n) (target_count network)
      then receipt (record {
        status = g.status;
        confirmation_count = n;
        gas_used = g.gas_used;
        block_hash = g.block_hash;
        to = g.to;
        from = g.from;
      })
      else no_receipt

  -- The hash is compared first, and then the sender's text is read.
  abbrev pub sender_matches : String → Option String → Action (Node E C) Bool
  sender_matches from none = throw type_error
  sender_matches from (some from_address) =
      pure (str_eq (C.to_lower_case from) (C.to_lower_case from_address))

  abbrev pub confirmed_if :
      ChainReceipt → Option String → Network → Option ℤ → Bool → Action (Node E C) FoundReceipt
  confirmed_if g from_address network count false = pure no_receipt
  confirmed_if g from_address network count true = do
    same ← sender_matches g.from from_address
    pure (if same then counted_receipt g network count else no_receipt)

  abbrev pub checked_receipt :
      Option String
      → Option String
      → Option String
      → Option ChainReceipt
      → Action (Node E C) FoundReceipt
  checked_receipt hash from_address network none = throw type_error
  checked_receipt hash from_address network (some g) = do
    count ← get_confirmations g.transaction_hash network
    confirmed_if g from_address (network_of network) count (is_text hash g.transaction_hash)

  -- `receipt`. A receipt that is null is read before it is tested.
  unfoldable pub find_receipt :
      Option String → Option String → Option String → Action (Node E C) FoundReceipt
  find_receipt hash from_address network = do
    g ← on_chain (C.get_transaction_receipt (network_of network) hash)
    checked_receipt hash from_address network g

  -- `decoded.to`, which the names of the parameters do not have.
  abbrev pub receiver_address : Decoded → Option String
  receiver_address decoded = none

  abbrev pub amount_text : Option ℕ → Action (Node E C) String
  amount_text none = throw type_error
  amount_text (some amount) = pure (C.number_text amount)

  abbrev pub counted_transaction :
      ListedTransaction → Option String → Bool → Action (Node E C) (Unit {0})
  counted_transaction v network false = pure tt
  counted_transaction v network true = ignore (get_confirmations v.hash network)

  -- NULL is compared as 0.
  abbrev pub after_block : ℕ → Option ℕ → Bool
  after_block n none = ltb 0 n
  after_block n (some block) = covers (sub_ℕ n block) 1

  abbrev pub compared :
      Option ℕ → String → ListedTransaction → Option String → Bool → Action (Node E C) (Unit {0})
  compared amount deposit_amount v network false = pure tt
  compared amount deposit_amount v network true = do
    text ← amount_text amount
    counted_transaction v network (str_eq text deposit_amount)

  -- The callback of the loop. It is asynchronous: what it assigns to `found_transaction` comes too late.
  unfoldable pub examine :
      String
      → Option ℕ
      → Option String
      → Option ℕ
      → ListedTransaction
      → Action (Node E C) (Unit {0})
  examine address amount network blocknumber v =
      catch
        (do
          decoded ← computed (C.decode_parameters v.input)
          deposit_amount ← computed (C.from_wei decoded.amount)
          compared amount deposit_amount v network (
              is_text (receiver_address decoded) address && after_block v.block_number blocknumber))
        (λ err. pure tt)

  -- `findTransactionForDeposit`
  unfoldable pub find_transaction_for_deposit :
      String → Option ℕ → Option String → Option ℕ → Action (Node E C) FoundTransaction
  find_transaction_for_deposit address amount network blocknumber = do
    catch
        (do
          list ← on_chain (C.tx_list (network_of network) address blocknumber)
          for_each (examine address amount network blocknumber) list)
        (λ error. on_vault (save_error E error "When searc hing deposit transaction status"))
    pure nothing

  -- `processDeposit` and `processWithdrawal`, with the service. The withdrawals of a job have no network.
  unfoldable pub process_deposit_job : List DepositJob → Action (Node E C) (Unit {0})
  process_deposit_job = for_each (λ v.
      catch
        (do
          found ← find_transaction_for_deposit v.to_address v.amount v.network v.start_block
          on_vault (handle_deposit E v found))
        (λ error. on_vault (save_error E error "Looping throug despit in deposit consumer file")))

  unfoldable pub process_withdrawal_job : List WithdrawalJob → Action (Node E C) (Unit {0})
  process_withdrawal_job = for_each (λ v.
      catch
        (do
          found ← find_receipt v.transaction_hash v.from_address none
          on_vault (handle_withdrawal E v found))
        (λ error. on_vault (save_error E error "Looping throug get receipt")))
