-- ===== src/WalletController/Addresses.antt =====
-- The request `getAddress` of src/wallet/wallet.controller.ts and the table of wallets.
use mathlib.Core.List.{head?}
use exchange_backend.Base.{
  ℕ, String, ◌≡◌, refl, sym, ap, ap₂, ◌∙◌, arith, ◌==◌, ◌&&◌, ==_self, eq_iff, eq_refl, subst, ◌⊎◌,
  inl, inr, Bool, true, false, Option, none, some, Option-cases, List, [], ◌∷◌, ◌++◌, str_eq,
}
use exchange_backend.Base.Lists.{All, Ordered, Ordered-append, All-map}
use exchange_backend.Base.Distinct.{Among, All-Among, Among-All, Among-last}
use exchange_backend.Base.Action.{
  ok, type_error, Ends-pure, Ends-throw, Ends-mono, Ends-state, Ends-done, ◌>>=◌,
}
use exchange_backend.Base.Keeping.{Keeps, keeps_rules}
use exchange_backend.Base.Following.{
  Follows, Follows-pure, Follows-throw, Follows-then, Follows-looked,
}
use exchange_backend.Repository.{FindOptions, IsReliable}
use exchange_backend.Repository.Laws.{none-found, find-condition, find-All, save-cases}
use exchange_backend.Custody.Entity.{Wallet}
use exchange_backend.Custody.World.{IsLawfulCustody, wallet_rows, wallet_keyed}
use exchange_backend.Custody.Database.{search_address, save_address, new_wallet, is_wallet_on}
use exchange_backend.WalletController.World.{WalletEnv, Desk, KeyPair, on_vault, on_chain}
use exchange_backend.WalletController.Requests.{
  GetAddressDto, gen_address, generate_address, with_keys, address_of,
}

both : (a b : Bool) → (a && b) ≡ true → (a ≡ true) × (b ≡ true)
both true b h = (refl, h)
both false b h = cc

contrary : {b : Bool} → b ≡ false → b ≡ true → ⊥
contrary p q = cc

==_true : (m n : ℕ) → (m == n) ≡ true → m ≡ n
==_true m n h = ground arith

module _ (W : WalletEnv) where
  abbrev pub rows_of : Desk W → List Wallet
  rows_of d = wallet_rows W.custody d.vault

  abbrev pub serves : GetAddressDto → Wallet → Bool
  serves dto = is_wallet_on dto.user_id dto.network

  -- What a look-up says of the table: no wallet serves the request, or the one found does.
  abbrev Looked : GetAddressDto → List Wallet → Option Wallet → Type 0
  Looked dto rows none = All (λ w. serves dto w ≡ false) rows
  Looked dto rows (some w) = (serves dto w ≡ true) × Among w rows

  abbrev Matches : GetAddressDto → Wallet → Type 0
  Matches dto w =
      (id time : ℕ) × (address key : String) × (w
        ≡ wallet_keyed id time (new_wallet W.custody dto.user_id dto.network address key))

  -- The address is that of a wallet that serves the request: one from before, or the only row more.
  abbrev Addressed : GetAddressDto → List Wallet → Option String → List Wallet → Type 0
  Addressed dto rows address later =
      (w : Wallet) × (address ≡ w.deposit_address)
      × (((serves dto w ≡ true) × Among w rows × (later ≡ rows))
          ⊎ (All (λ x. serves dto x ≡ false) rows × Matches dto w × (later ≡ rows ++ (w ∷ []))))

  on_chain-Keeps :
      {A : Type 0} (call : W.chain.State → Option A × W.chain.State)
      → Keeps rows_of (on_chain W call)
  on_chain-Keeps call = record { keeps = λ d. refl }

  generate_address-Keeps : (network : String) → Keeps rows_of (generate_address W network)
  unfolding generate_address
  generate_address-Keeps network = search (keeps_rules, on_chain-Keeps) depth 24

  module _ (L : IsLawfulCustody W.custody) (dto : GetAddressDto) where
    abbrev asked : FindOptions Wallet
    asked = record { condition = serves dto; order = []; limit = none }

    first-Looked :
        (s : W.custody.wallets.State) (found : List Wallet)
        → (W.custody.wallets.find asked s).0 ≡ some found
        → Looked dto (W.custody.wallets.rows s) (head? found)
    first-Looked s [] e = none-found L.wallets_lawful asked s e refl refl
    first-Looked s (w ∷ ws) e = (
      (find-condition L.wallets_lawful asked s e).0,
      (find-All L.wallets_lawful asked s e (λ x. Among x (W.custody.wallets.rows s))
          (All-Among _)).0,
    )

    module _ (rows : List Wallet) where
      looked :
          Follows rows_of rows
            (λ found later. (later ≡ rows) × Looked dto rows found)
            (on_vault W (search_address W.custody dto.user_id dto.network))
      unfolding search_address ◌>>=◌
      looked = record {
        follows = λ d e. elim (Option-cases (W.custody.wallets.find asked d.vault.wallets).0) [
          | inl f ↦ rw f (Ends-throw _ _ (L.wallets_lawful.rows-find asked d.vault.wallets ∙ e))
          | inr (found, f) ↦ rw f (
              Ends-pure _ _ (
                L.wallets_lawful.rows-find asked d.vault.wallets ∙ e,
                subst (λ r. Looked dto r (head? found)) e (first-Looked d.vault.wallets found f),
              ))
        ];
      }

      with_keys-Addressed :
          All (λ x. serves dto x ≡ false) rows
          → (keys : Option KeyPair)
          → Follows rows_of rows (Addressed dto rows) (with_keys W dto keys)
      unfolding save_address ◌>>=◌
      with_keys-Addressed free none = Follows-throw rows_of rows (Addressed dto rows) type_error
      with_keys-Addressed free (some keys) = record {
        follows = λ d e.
            elim (save-cases L.wallets_lawful
              (new_wallet W.custody dto.user_id dto.network keys.address keys.private_key)
              d.vault.wallets refl) [
                | inl (f, same) ↦ rw f (Ends-throw _ _ (same ∙ e))
                | inr (w, f, (time, named), added) ↦ rw f (
                    Ends-pure _ _ (
                      w,
                      refl,
                      inr (
                        free,
                        (w.id, time, keys.address, keys.private_key, named),
                        added ∙ ap (λ xs. xs ++ (w ∷ [])) e,
                      ),
                    ))
              ];
      }

      address_of-Addressed :
          (found : Option Wallet)
          → Looked dto rows found
          → Follows rows_of rows (Addressed dto rows) (address_of W dto found)
      address_of-Addressed none free =
          Follows-then rows_of rows (Addressed dto rows) (generate_address-Keeps dto.network)
            (with_keys-Addressed free)
      address_of-Addressed (some w) (serving, member) =
          Follows-pure rows_of rows (Addressed dto rows) w.deposit_address
            (w, refl, inl (serving, member, refl))

      gen_address-Addressed : Follows rows_of rows (Addressed dto rows) (gen_address W dto)
      unfolding gen_address
      gen_address-Addressed =
          Follows-looked rows_of rows (Addressed dto rows) (Looked dto rows) looked
            address_of-Addressed

  -- A user has at most one wallet on a network.
  abbrev pub IsOneEach : List Wallet → Type 0
  IsOneEach = Ordered (λ w v. is_wallet_on v.user_id v.network w ≡ false)

  serves-true :
      (dto : GetAddressDto) (w : Wallet)
      → serves dto w ≡ true
      → (w.network ≡ dto.network) × (w.user_id ≡ dto.user_id)
  serves-true dto w h =
      let (n, u) = both (str_eq w.network dto.network) (w.user_id == dto.user_id) h in
      ((eq_iff w.network dto.network).0 n, ==_true w.user_id dto.user_id u)

  Matches-serves : (dto : GetAddressDto) (w : Wallet) → Matches dto w → serves dto w ≡ true
  Matches-serves dto w (id, time, address, key, e) =
      rw e (rw (eq_refl dto.network) rw (==_self dto.user_id) refl)

  served_once :
      (dto : GetAddressDto) (w v : Wallet) (rows : List Wallet)
      → All (λ x. is_wallet_on x.user_id x.network w ≡ false) rows
      → Among v rows
      → serves dto w ≡ true
      → serves dto v ≡ true
      → ⊥
  served_once dto w v rows h m sw sv =
      let (n, u) = serves-true dto v sv in
      contrary (Among-All _ v rows m h) (ap₂ (λ user network. is_wallet_on user network w) u n ∙ sw)

  -- The wallet that serves a request is the only one.
  one_serving :
      (dto : GetAddressDto) (w v : Wallet) (rows : List Wallet)
      → IsOneEach rows
      → Among w rows
      → Among v rows
      → serves dto w ≡ true
      → serves dto v ≡ true
      → v ≡ w
  one_serving dto w v [] h m n sw sv = absurd m
  one_serving dto w v (x ∷ xs) h (inl e) (inl f) sw sv = sym f ∙ e
  one_serving dto w v (x ∷ xs) h (inl e) (inr n) sw sv = absurd (
      served_once dto w v xs
        (subst (λ y. All (λ z. is_wallet_on z.user_id z.network y ≡ false) xs) e h.0) n sw sv)
  one_serving dto w v (x ∷ xs) h (inr m) (inl f) sw sv = absurd (
      served_once dto v w xs
        (subst (λ y. All (λ z. is_wallet_on z.user_id z.network y ≡ false) xs) f h.0) m sv sw)
  one_serving dto w v (x ∷ xs) h (inr m) (inr n) sw sv = one_serving dto w v xs h.1 m n sw sv

  Addressed-IsOneEach :
      (dto : GetAddressDto) (rows later : List Wallet) (address : Option String)
      → IsOneEach rows
      → Addressed dto rows address later
      → IsOneEach later
  Addressed-IsOneEach dto rows later address h (w, a, inl (serving, member, e)) =
      subst IsOneEach (sym e) h
  Addressed-IsOneEach dto rows later address h (w, a, inr (free, (id, time, at, key, named), e)) =
      subst IsOneEach (sym e) (
        Ordered-append _ rows (w ∷ []) h (tt, tt)
          (All-map _ _ (λ s closed. (rw named closed, tt)) rows free))

  Addressed-serving :
      (dto : GetAddressDto) (rows later : List Wallet) (address : Option String)
      → Addressed dto rows address later
      → (w : Wallet) × (address ≡ w.deposit_address) × (serves dto w ≡ true) × Among w later
  Addressed-serving dto rows later address (w, a, inl (serving, member, e)) =
      (w, a, serving, subst (Among w) (sym e) member)
  Addressed-serving dto rows later address (w, a, inr (free, m, e)) =
      (w, a, Matches-serves dto w m, subst (Among w) (sym e) (Among-last w rows))

module _ (W : WalletEnv) (L : IsLawfulCustody W.custody) where
  -- Over a lawful custody, whatever the request and the answers of the chains and of the database,
  -- `getAddress` keeps the invariant of the wallets: a user has at most one on each network.
  pub gen_address-IsOneEach :
      (dto : GetAddressDto) (d : Desk W)
      → IsOneEach W (rows_of W d)
      → IsOneEach W (rows_of W (gen_address W dto d).1)
  gen_address-IsOneEach dto d h =
      Ends-state (λ e. IsOneEach W (rows_of W e)) (gen_address W dto d)
        (Ends-mono (λ e q. subst (IsOneEach W) (sym q) h)
          (λ a e. Addressed-IsOneEach W dto (rows_of W d) (rows_of W e) a h)
          ((gen_address-Addressed W L dto (rows_of W d)).follows d refl))

  -- Over a lawful custody in which no call on the wallets is rejected and a user has at most one wallet on
  -- each network: where `getAddress` gave an address, the same request gives the same address again and adds
  -- no wallet, in every state in which the wallets are those that it left.
  pub gen_address-stable :
      IsReliable W.custody.wallets
      → (dto : GetAddressDto) (d e : Desk W) (address : Option String) → IsOneEach W (rows_of W d)
      → (gen_address W dto d).0 ≡ ok address
      → rows_of W e ≡ rows_of W (gen_address W dto d).1
      → ((gen_address W dto e).0 ≡ ok address) × (rows_of W (gen_address W dto e).1 ≡ rows_of W e)
  unfolding gen_address search_address ◌>>=◌
  gen_address-stable R dto d e address h given same =
      let addressed : Addressed W dto (rows_of W d) address (rows_of W (gen_address W dto d).1) =
        Ends-done _ _ ((gen_address-Addressed W L dto (rows_of W d)).follows d refl) given in
      let (found, f) = R.finds (asked W L dto) e.vault.wallets in
      rw f (
        second (head? found) _ (L.wallets_lawful.rows-find (asked W L dto) e.vault.wallets)
          (subst (IsOneEach W) (sym same)
            (Addressed-IsOneEach W dto (rows_of W d) _ address h addressed))
          (subst (λ rows. Served rows) (sym same)
            (Addressed-serving W dto (rows_of W d) _ address addressed))
          (first-Looked W L dto e.vault.wallets found f))
    where
      Served : List Wallet → Type 0
      Served rows =
          (w : Wallet) × (address ≡ w.deposit_address) × (serves W dto w ≡ true) × Among w rows

      second :
          (o : Option Wallet) (t : Desk W)
          → rows_of W t ≡ rows_of W e
          → IsOneEach W (rows_of W e)
          → Served (rows_of W e)
          → Looked W dto (rows_of W e) o
          → ((address_of W dto o t).0 ≡ ok address)
            × (rows_of W (address_of W dto o t).1 ≡ rows_of W e)
      second none t q one (w, a, serving, member) free =
          absurd (contrary (Among-All _ w (rows_of W e) member free) serving)
      second (some v) t q one (w, a, serving, member) (sv, n) = (
        ap (λ (x : Wallet). ok x.deposit_address)
              (one_serving W dto w v (rows_of W e) one member n serving sv)
            ∙ ap ok (sym a),
        q,
      )
