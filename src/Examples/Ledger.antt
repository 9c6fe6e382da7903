-- ===== src/Examples/Ledger.antt =====
-- A token program that keeps its promises: balances and supplies as functions, changed at one account or
-- mint at a time.
use plott.Common.{
  ℕ, ◌+◌, ◌-◌, ◌≤◌, ◌≡◌, refl, ◌≢◌, sym, ◌∙◌, Bool, true, false, ◌&&◌, ◌==◌, leb, if◌then◌else◌,
  Option, some, none, arith, Bool-cases, inl, inr,
}
use plott.State.Keys.{Pubkey}
use plott.Pyth.{PriceUpdateV2}
use plott.Runtime.{
  Runtime, Vault, TokenAccount, vault, wallet, collateral_vault, bond_vault, buffer_bond_vault,
  funding_vault, buffer_vault, stake_vault, redeem_escrow,
}
use plott.Runtime.Laws.{TokenLaws, Transferred}

pub record Tokens : Type 0 where
  pub balances : TokenAccount → ℕ
  pub supplies : Pubkey → ℕ

abbrev pub vault_number : Vault → ℕ
vault_number collateral_vault = 0
vault_number bond_vault = 1
vault_number buffer_bond_vault = 2
vault_number funding_vault = 3
vault_number buffer_vault = 4
vault_number stake_vault = 5
vault_number redeem_escrow = 6

abbrev pub same : TokenAccount → TokenAccount → Bool
same (vault v) (vault w) = vault_number v == vault_number w
same (wallet v) (wallet w) =
    v.address == w.address && v.mint == w.mint && v.authority == w.authority
same _ _ = false

vault_number-eq : (v w : Vault) → vault_number v ≡ vault_number w → v ≡ w
vault_number-eq v w h = ground arith

same-eq : (a b : TokenAccount) → same a b ≡ true → a ≡ b
same-eq (vault v) (vault w) h = ground (arith, vault_number-eq v w)
same-eq (vault v) (wallet w) h = ground arith
same-eq (wallet v) (vault w) h = ground arith
same-eq (wallet v) (wallet w) h = ground arith

same_refl : (a : TokenAccount) → same a a ≡ true
same_refl (vault v) = ground arith
same_refl (wallet w) = ground arith

-- A function changed at one argument.
abbrev pub set : (TokenAccount → ℕ) → TokenAccount → ℕ → TokenAccount → ℕ
set f a n b = if same a b then n else f b

abbrev pub set_supply : (Pubkey → ℕ) → Pubkey → ℕ → Pubkey → ℕ
set_supply f m n k = if m == k then n else f k

set-at : (f : TokenAccount → ℕ) (a : TokenAccount) (n : ℕ) → set f a n a ≡ n
set-at f a n = rw (same_refl a) refl

set-off : (f : TokenAccount → ℕ) (a b : TokenAccount) (n : ℕ) → b ≢ a → set f a n b ≡ f b
set-off f a b n apart = elim (Bool-cases (same a b)) [
  | inl e ↦ absurd (apart (sym (same-eq a b e)))
  | inr e ↦ rw e refl
]

-- The mints of Setup's config.
abbrev pub vault_mint : Vault → Pubkey
vault_mint collateral_vault = 20
vault_mint bond_vault = 22
vault_mint buffer_bond_vault = 22
vault_mint funding_vault = 21
vault_mint buffer_vault = 21
vault_mint stake_vault = 21
vault_mint redeem_escrow = 21

abbrev pub holds : TokenAccount → Pubkey → Bool
holds (vault v) mint = vault_mint v == mint
holds (wallet w) mint = w.mint == mint

abbrev pub transfer : Tokens → TokenAccount → Pubkey → TokenAccount → Pubkey → ℕ → ℕ → Option Tokens
transfer t source mint destination authority amount decimals =
    if holds source mint && holds destination mint && leb amount (t.balances source)
    then some (
        let taken = set t.balances source (t.balances source - amount) in
        record t { balances = set taken destination (taken destination + amount) })
    else none

abbrev pub issue : Tokens → Pubkey → TokenAccount → Pubkey → ℕ → Option Tokens
issue t mint a authority amount = some (record {
  balances = set t.balances a (t.balances a + amount);
  supplies = set_supply t.supplies mint (t.supplies mint + amount);
})

abbrev pub destroy : Tokens → Pubkey → TokenAccount → Pubkey → ℕ → Option Tokens
destroy t mint a authority amount =
    if leb amount (t.balances a) && leb amount (t.supplies mint)
    then some (record {
      balances = set t.balances a (t.balances a - amount);
      supplies = set_supply t.supplies mint (t.supplies mint - amount);
    })
    else none

-- Every mint has six decimals, the config's address is 1, and every price account holds one update.
abbrev pub runtime : PriceUpdateV2 → Runtime Tokens
runtime update = record {
  deserialize = λ b. some update;
  hashv = λ b. 77;
  config_key = 1;
  mint_request_key = λ u n. u + n + 1_000;
  redeem_request_key = λ u n. u + n + 2_000;
  proof_key = λ n. n + 3_000;
  mint_account =
      λ t m. record { owner = 5; decimals = 6; mint_authority = some 1; freeze_authority = none };
  balance = λ t a. t.balances a;
  supply = λ t m. t.supplies m;
  is_open = λ t a m. holds a m;
  transfer_checked = transfer;
  mint_to = issue;
  burn = destroy;
}

transfer-Transferred :
    (u : PriceUpdateV2) (t t' : Tokens) (source destination : TokenAccount)
    (mint authority : Pubkey) (amount decimals : ℕ)
    → transfer t source mint destination authority amount decimals ≡ some t'
    → source ≢ destination
    → Transferred (runtime u) t t' source destination amount
transfer-Transferred u t t' source destination mint authority amount decimals h apart =
    let taken = set t.balances source (t.balances source - amount) in
    let held : amount ≤ t.balances source = ground arith in
    let result : t' ≡ record t { balances = set taken destination (taken destination + amount) } =
      ground arith in
    rw result (record {
      debited = omega (
        arith,
        held,
        set-off taken destination source (taken destination + amount) apart,
        set-at t.balances source (t.balances source - amount),
      );
      credited = omega (
        arith,
        set-at taken destination (taken destination + amount),
        set-off t.balances source destination (t.balances source - amount) (λ e. apart (sym e)),
      );
      others = λ a x y.
          set-off taken destination a (taken destination + amount) y
          ∙ set-off t.balances source a (t.balances source - amount) x;
      supplies = λ m. refl;
    })

set_supply-at : (f : Pubkey → ℕ) (m : Pubkey) (n : ℕ) → set_supply f m n m ≡ n
set_supply-at f m n = ground arith

-- So what the theorems about balances ask of the token program can hold.
pub runtime-TokenLaws : (u : PriceUpdateV2) → TokenLaws (runtime u)
runtime-TokenLaws u = record {
  transfers = λ t t' source destination mint authority amount decimals h apart.
      transfer-Transferred u t t' source destination mint authority amount decimals h apart;
  mints = λ t t' mint authority a amount h. issue_lem t t' mint authority a amount h;
  burns = λ t t' mint authority a amount h. destroy_lem t t' mint authority a amount h;
}
  where
    issue_lem :
        (t t' : Tokens) (mint authority : Pubkey) (a : TokenAccount) (amount : ℕ)
        → issue t mint a authority amount ≡ some t'
        → (t'.balances a ≡ t.balances a + amount)
          × ((b : TokenAccount) → b ≢ a → t'.balances b ≡ t.balances b)
          × (t'.supplies mint ≡ t.supplies mint + amount)
    issue_lem t t' mint authority a amount h =
        let result : t' ≡ record {
          balances = set t.balances a (t.balances a + amount);
          supplies = set_supply t.supplies mint (t.supplies mint + amount);
        } =
          ground arith in
        rw result (
          set-at t.balances a (t.balances a + amount),
          λ b x. set-off t.balances a b (t.balances a + amount) x,
          set_supply-at t.supplies mint (t.supplies mint + amount),
        )

    destroy_lem :
        (t t' : Tokens) (mint authority : Pubkey) (a : TokenAccount) (amount : ℕ)
        → destroy t mint a authority amount ≡ some t'
        → (t.balances a ≡ t'.balances a + amount)
          × ((b : TokenAccount) → b ≢ a → t'.balances b ≡ t.balances b)
          × (t.supplies mint ≡ t'.supplies mint + amount)
    destroy_lem t t' mint authority a amount h =
        let held : (amount ≤ t.balances a) × (amount ≤ t.supplies mint) = ground arith in
        let result : t' ≡ record {
          balances = set t.balances a (t.balances a - amount);
          supplies = set_supply t.supplies mint (t.supplies mint - amount);
        } =
          ground arith in
        rw result (
          omega (arith, held, set-at t.balances a (t.balances a - amount)),
          λ b x. set-off t.balances a b (t.balances a - amount) x,
          omega (arith, held, set_supply-at t.supplies mint (t.supplies mint - amount)),
        )
