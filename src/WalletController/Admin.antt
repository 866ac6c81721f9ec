-- ===== src/WalletController/Admin.antt =====
-- The requests of the administrator in src/wallet/wallet.controller.ts: transfers of USDT from the
-- exchange's own wallet, the number of the last block, a balance, and new keys.
use exchange_backend.Base.{
  ℕ, String, ◌<>◌, ◌≡◌, refl, inl, inr, Bool, true, false, Bool-cases, Option, none, some,
  Option-cases,
}
use exchange_backend.Base.Action.{Action, Exception, ok, pure, catch, ◌>>=◌}
use exchange_backend.Custody.Entity.{usdt}
use exchange_backend.WalletController.World.{
  WalletEnv, Desk, text_amount, bsc_provider, KeyPair, on_chain, computed,
}
use exchange_backend.WalletController.Transfers.{
  Response, failure, failing, success_of, token_contract,
}
use exchange_backend.WalletController.Requests.{generate_address}

-- src/dto/usdt_transfer.dto.ts, with the text of the amount.
pub record UsdtTransferDto : Type 0 where
  pub amount : String
  pub address : String

-- `{ success, message, data }`
pub record Data (A : Type 0) : Type 0 where
  pub success : Bool
  pub message : String
  pub data_of : Option A

abbrev pub admin_key : String
admin_key = "4557a58c97821a47ad27dafad3dc99a535bf85d1238174d9cb21243f392ea7a0"

module _ (W : WalletEnv) where
  abbrev sent_admin : UsdtTransferDto → String → ℕ → Bool → Action (Desk W) Response
  sent_admin post contract amount true = pure (failure "Insufficient Admin Amount" (some ""))
  sent_admin post contract amount false = do
    receipt ←
        on_chain W (W.chain.transfer bsc_provider contract (some admin_key) post.address amount)
    pure (success_of "usdt transfreed succsfully" receipt)

  abbrev try_usdt_transfer : UsdtTransferDto → Action (Desk W) Response
  try_usdt_transfer post = do
    from_address ← computed W (W.chain.wallet_address (some admin_key))
    contract ← computed W (token_contract usdt "BEP20")
    balance ← on_chain W (W.chain.balance_of bsc_provider contract from_address)
    amount ← computed W (W.chain.parse_units (text_amount post.amount))
    sent_admin post contract amount (W.below (W.chain.format_ether balance) post.amount)

  unfoldable pub usdt_transfer : UsdtTransferDto → Action (Desk W) Response
  usdt_transfer post = failing W (try_usdt_transfer post)

  abbrev unavailable : {A : Type 0} → String → Exception → Action (Desk W) (Data A)
  unavailable message error =
      pure (record { success = false; message = message <> W.error_text error; data_of = none })

  unfoldable pub get_block_number : Action (Desk W) (Data ℕ)
  get_block_number =
      catch
        (do
          block ← on_chain W (W.chain.get_block_number bsc_provider)
          pure (record { success = true; message = "got block number"; data_of = some block }))
        (unavailable "Failed Reriving block ")

  unfoldable pub usdt_balance_check : String → Action (Desk W) (Data String)
  usdt_balance_check address =
      catch
        (do
          contract ← computed W (token_contract usdt "BEP20")
          balance ← on_chain W (W.chain.balance_of bsc_provider contract address)
          pure (record {
            success = true;
            message = "usdt transfreed succsfully";
            data_of = some (W.chain.format_ether balance);
          }))
        (unavailable "Transfer Failed ")

  -- It repeats the text of `generateAdress`.
  unfoldable pub generate_wallet_address : String → Action (Desk W) (Option KeyPair)
  generate_wallet_address network = generate_address W network

  abbrev contract_of_usdt : String
  contract_of_usdt = "0x55d398326f99059fF775485246999027B3197955"

  -- What a reply says: no table changed, and a success has a hash, and a balance that covers the amount.
  abbrev pub Covered : UsdtTransferDto → Desk W → Response → Desk W → Type 0
  Covered post d reply e =
      (e.vault ≡ d.vault)
      × (e.fees ≡ d.fees)
      × (reply.success ≡ true
          → (hash from_address : String) × (balance : ℕ) × (reply.hash ≡ some hash)
            × (W.chain.wallet_address (some admin_key) ≡ some from_address)
            × ((W.chain.balance_of bsc_provider contract_of_usdt from_address d.chain).0
                ≡ some balance)
            × (W.below (W.chain.format_ether balance) post.amount ≡ false))

  -- `usdt_transfer` gives a reply, whatever the chain answers, and changes no table. A reply of success has a
  -- hash, and the chain gave a balance of the exchange's wallet that is, as a number, not below the amount.
  pub usdt_transfer-Covered :
      (post : UsdtTransferDto) (d : Desk W)
      → (reply : Response) × ((usdt_transfer post d).0 ≡ ok reply)
        × Covered post d reply (usdt_transfer post d).1
  unfolding usdt_transfer catch ◌>>=◌
  usdt_transfer-Covered post d = elim (Option-cases (W.chain.wallet_address (some admin_key))) [
    | inl a ↦ rw a (_, refl, (refl, refl, λ h. cc))
    | inr (from_address, a) ↦
        elim (Option-cases
          (W.chain.balance_of bsc_provider contract_of_usdt from_address d.chain).0) [
            | inl b ↦ rw a rw b (_, refl, (refl, refl, λ h. cc))
            | inr (balance, b) ↦
                elim (Option-cases (W.chain.parse_units (text_amount post.amount))) [
                  | inl p ↦ rw a rw b rw p (_, refl, (refl, refl, λ h. cc))
                  | inr (amount, p) ↦
                      elim (Bool-cases (W.below (W.chain.format_ether balance) post.amount)) [
                        | inl low ↦ rw a rw b rw p rw low (_, refl, (refl, refl, λ h. cc))
                        | inr covered ↦
                            rw a rw b rw p rw covered
                              elim (Option-cases
                                (W.chain.transfer bsc_provider contract_of_usdt (some admin_key)
                                  post.address amount
                                  (W.chain.balance_of bsc_provider contract_of_usdt from_address
                                    d.chain).1).0) [
                                      | inl t ↦ rw t (_, refl, (refl, refl, λ h. cc))
                                      | inr (receipt, t) ↦ rw t (
                                        _,
                                        refl,
                                        (
                                          refl,
                                          refl,
                                          λ h. (
                                            receipt.transaction_hash, from_address, balance, refl,
                                            refl, b, covered,
                                          ),
                                        ),
                                      )
                                    ]
                      ]
                ]
          ]
  ]
