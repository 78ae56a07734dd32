-- ===== src/Referral/Claims.antt =====
-- The payout of rewards by the treasury contract: the composition of the two models.
use trellis_contracts.Prelude.{
  total-insert-itself, lookup-insert, ◌-ℤ◌, int_laws, true, refl, ◌∙◌, itself, total, sym, ◌+ℤ◌, ℕ,
  ◌≡◌, ◌⊎◌, inl, inr, ◌&&◌, ◌||◌, Option, arith, ◌==◌, if◌then◌else◌, Bool-cases, insert, ℤ, leb_ℤ,
  pos,
}
use trellis_contracts.Host.{
  panic_with_error, err, Result, Env, Address, Symbol, require_auth, bind_then, ok, trap,
}
use trellis_contracts.Shared.Errors.{Error}
use trellis_contracts.Referral.{Referral, read_accrued}
use trellis_contracts.Referral.Rewards.{
  Peers, claim_rewards, read_treasury, call_treasury_distribute_reward,
}
use trellis_contracts.Referral.Caps.{AreKept}
use trellis_contracts.Treasury.{Treasury, rewards_category, category_balance, distribute_reward}
use trellis_contracts.Treasury.Authority.{distribute_reward_effect}

-- The treasury's environment in a call by the referral contract, which thereby authorises it.
abbrev pub callee_env : Env → Address → Env
callee_env env treasury = record env {
  current_contract_address = treasury;
  authorized = λ a. a == env.current_contract_address || env.authorized a;
}

-- The treasury contract at one address, and a registry that answers in any way.
abbrev pub treasury_at :
    Address → (Address → Symbol → Treasury → Option Address) → Env → Peers Treasury
treasury_at treasury answers env = record {
  get_contract = answers;
  distribute_reward = λ a to x t.
      if a == treasury then distribute_reward (callee_env env treasury) to x t else trap;
}

call_ok :
    {T : Type 0} (p : Peers T) (t r : ℕ) (x : ℤ) (l l' : T)
    → call_treasury_distribute_reward p t r x l ≡ ok l'
    → p.distribute_reward t r x l ≡ ok l'
unfolding call_treasury_distribute_reward
call_ok p t r x l l' e = go (p.distribute_reward t r x l) refl
  where
    go :
        (o : Result Error _) → p.distribute_reward t r x l ≡ o → p.distribute_reward t r x l ≡ ok l'
    go (ok y) h = ground arith
    go (err _) h = absurd (ground arith)
    go (panic_with_error _) h = absurd (ground arith)
    go trap h = absurd (ground arith)

-- What a claim that pays something has found and done, whichever contracts are called.
pub claim_cases :
    {T : Type 0} (p : Peers T) (env : Env) (r : ℕ) (s s' : Referral) (l l' : T) (x : ℤ)
    → claim_rewards p env r s l ≡ ok (x, s', l')
    → ((x ≡ pos 0) × (read_accrued r s ≡ pos 0) × (s' ≡ s) × (l' ≡ l))
      ⊎ ((t : Address) × (x ≡ read_accrued r s)
          × (p.distribute_reward t r x l ≡ ok l')
          × (s'.accrued ≡ insert r (pos 0) s.accrued)
          × (s'.lifetime ≡ s.lifetime)
          × AreKept s s')
unfolding claim_rewards call_treasury_distribute_reward
claim_cases p env r s s' l l' x e = bind_then (require_auth env r) _ e λ _ _ e₁.
    let a = read_accrued r s in
    elim (Bool-cases (leb_ℤ a (pos 0) && leb_ℤ (pos 0) a)) [
      | inl none' ↦ inl (ground arith, ground arith, ground arith, ground arith)
      | inr some' ↦ bind_then (read_treasury p s l) _ (rw some' at e₁) λ t _ e₂.
          bind_then (call_treasury_distribute_reward p t r a l) _ e₂ λ l₁ h e₃.
            let amount : read_accrued r s ≡ x = cc in
            let state : l₁ ≡ l' = cc in
            inr (
              t,
              sym amount,
              rw (← amount, ← state) (call_ok p t r a l l₁ h),
              ground arith,
              ground arith,
              (ground arith, ground arith, ground arith, ground arith),
            )
    ]

-- With the treasury model as the treasury, and a registry that answers in any way, a claim pays
-- exactly the claimable rewards: the treasury's rewards category falls by what the claim returns,
-- nothing stays claimable, the lifetime rewards stay, and the claimable rewards of all referrers
-- fall by the same amount.
pub claim_pays :
    (env : Env) (answers : Address → Symbol → Treasury → Option Address) (treasury r : ℕ)
    (s s' : Referral) (t t' : Treasury) (x : ℤ)
    → claim_rewards (treasury_at treasury answers env) env r s t ≡ ok (x, s', t')
    → (x ≡ read_accrued r s)
      × (category_balance rewards_category t' +ℤ x ≡ category_balance rewards_category t)
      × (read_accrued r s' ≡ pos 0)
      × (total itself s'.accrued +ℤ x ≡ total itself s.accrued)
      × (s'.lifetime ≡ s.lifetime)
unfolding category_balance read_accrued
claim_pays env answers treasury r s s' t t' x e =
    elim (claim_cases (treasury_at treasury answers env) env r s s' t t' x e) [
      | inl (zero', none', same, same') ↦
          rw (same, same')
            (zero' ∙ sym none', grind (int_laws, zero'), none', grind (int_laws, zero'), refl)
      | inr (to, amount, paid, books, lifetime, _) ↦
          let called : distribute_reward (callee_env env treasury) r x t ≡ ok t' = ground arith in
          let (_, _, _, after) =
            distribute_reward_effect (callee_env env treasury) r x t t' called in
          let left = category_balance rewards_category t -ℤ x in
          (
            amount,
            grind (int_laws, after, lookup-insert rewards_category rewards_category left t.cat_bal),
            ground (arith, books, lookup-insert r r (pos 0) s.accrued),
            grind (int_laws, books, amount, total-insert-itself r (pos 0) s.accrued),
            lifetime,
          )
    ]

-- After a claim the next claim of the same referrer, which it authorises, returns zero and changes
-- neither contract.
pub claim_again :
    (env env' : Env) (answers answers' : Address → Symbol → Treasury → Option Address)
    (treasury r : ℕ) (s s' : Referral) (t t' : Treasury) (x : ℤ)
    → claim_rewards (treasury_at treasury answers env) env r s t ≡ ok (x, s', t')
    → env'.authorized r ≡ true
    → claim_rewards (treasury_at treasury answers' env') env' r s' t' ≡ ok (pos 0, s', t')
unfolding claim_rewards
claim_again env env' answers answers' treasury r s s' t t' x e signed =
    let (_, _, empty, _, _) = claim_pays env answers treasury r s s' t t' x e in ground arith
