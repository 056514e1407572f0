-- ===== src/Treasury/Ledger/Settle.antt =====
-- What a settled ledger publishes, and how its state ages until the next mutation.
use deepseek_harness_web3_ag.Prelude.{
  ℕ, ◌+◌, ◌-◌, ◌*◌, ◌≤◌, ◌<◌, ◌≡◌, refl, ◌∙◌, ◌⊎◌, inl, inr, true, false, [], ◌∷◌, ◌++◌, arith, ap,
  Bool-cases,
}
use native.Mathlib.Nat.{le-div_iff_mul-le, div-mul-le_self, le_trans, le_refl}
use deepseek_harness_web3_ag.Prelude.Maps.{Dict}
use deepseek_harness_web3_ag.Treasury.Economics.{
  TreasuryState, funded, low, critical, depleted, compute_treasury_state,
}
use deepseek_harness_web3_ag.Treasury.Economics.Gradient.{health, compute_treasury_state_mono}
use deepseek_harness_web3_ag.Treasury.Domain.{ChainBalance, Expense, TreasuryStateChange, Table}
use deepseek_harness_web3_ag.Treasury.Domain.Weigh.{weigh}
use deepseek_harness_web3_ag.Treasury.Ledger.{
  Ledger, state_changed, state_eq, day_ms, ceil_div, Readings, ResolvedConfig, windowed,
  total_value_usd, daily_burn_usd, runway_days, report, settle,
}
use deepseek_harness_web3_ag.Treasury.Invariant.{nothing, check_change}

pub state_eq_refl : (a : TreasuryState) → state_eq a a ≡ true
state_eq_refl funded = refl
state_eq_refl low = refl
state_eq_refl critical = refl
state_eq_refl depleted = refl

pub state_eq→eq : (a b : TreasuryState) → state_eq a b ≡ true → a ≡ b
state_eq→eq a b h = ground arith

state_eq_sym : (a b : TreasuryState) → state_eq a b ≡ state_eq b a
state_eq_sym a b = ground arith

-- The companion is content with a change that its report derives and that is one.
check_change-nothing :
    (c : TreasuryStateChange)
    → c.current ≡ compute_treasury_state c.report.runway_days
    → c.report.state ≡ c.current
    → state_eq c.previous c.current ≡ false
    → check_change c ≡ nothing
unfolding check_change
check_change-nothing c derived reported moved = ground (
  arith,
  state_eq_refl c.current,
  ap (state_eq c.current) derived,
  ap (λ x. state_eq x c.current) reported,
)

ceil_div_mono : (a a' b : ℕ) → 0 < b → a ≤ a' → ceil_div a b ≤ ceil_div a' b
ceil_div_mono a a' b h k =
    (le-div_iff_mul-le h).1 (le_trans (div-mul-le_self (a + (b - 1)) b) (omega arith))

module _ (config : ResolvedConfig) where
  -- An expense leaves the window as time passes, and never comes back.
  weigh-windowed_anti :
      (now later : ℕ) (m : Dict Expense)
      → now ≤ later
      → weigh (windowed config later) m ≤ weigh (windowed config now) m
  weigh-windowed_anti now later [] h = omega arith
  weigh-windowed_anti now later ((k, e) ∷ m) h = ground (arith, weigh-windowed_anti now later m h)

module _ {B : Table ChainBalance} {X : Table Expense} (config : ResolvedConfig) where
  -- What one settling publishes: nothing when the state stays, else one change that the
  -- companion has nothing to say against.
  abbrev pub Publishes : Ledger B X → Ledger B X → Type 0
  Publishes s s' =
      ((s'.current ≡ s.current) × (s'.emitted ≡ s.emitted))
      ⊎ ((c : TreasuryStateChange) × (s'.emitted ≡ s.emitted ++ state_changed c ∷ [])
          × (c.previous ≡ s.current)
          × (c.current ≡ s'.current)
          × (check_change c ≡ nothing))

  pub settle_keeps_rows :
      (clock : Readings) (s : Ledger B X)
      → let s' = (settle config clock s).1 in
        (s'.balances ≡ s.balances) × (s'.expenses ≡ s.expenses)
  unfolding settle
  settle_keeps_rows clock s = ground arith

  -- A settling whose readings of the clock agree derives the state from the rows, leaves the rows,
  -- and publishes a transition exactly when the state moved, with a report that agrees with it.
  pub settle-Publishes :
      (clock : Readings) (s : Ledger B X)
      → clock.at_runway ≡ clock.at_report
      → let s' = (settle config clock s).1 in
        (s'.current ≡ compute_treasury_state (runway_days config clock.at_report s'))
        × (s'.balances ≡ s.balances)
        × (s'.expenses ≡ s.expenses)
        × Publishes s s'
  unfolding settle
  settle-Publishes clock s same =
      let next = compute_treasury_state (runway_days config clock.at_runway s) in
      elim (Bool-cases (state_eq next s.current)) [
        | inl stays ↦ rw stays (rw same, refl, refl, inl (state_eq→eq next s.current stays, refl))
        | inr moves ↦ rw moves (
          rw same,
          refl,
          refl,
          inr (
            record {
              previous = s.current;
              current = next;
              report = report config clock.at_burn clock.at_report (record s { current = next });
            },
            refl,
            refl,
            refl,
            check_change-nothing _ (rw same) refl (state_eq_sym s.current next ∙ moves),
          ),
        )
      ]

  burn_anti :
      (now later : ℕ) (s : Ledger B X)
      → 0 < config.burn_window_ms
      → now ≤ later
      → daily_burn_usd config later s ≤ daily_burn_usd config now s
  unfolding daily_burn_usd
  burn_anti now later s pos h = grind (
    arith,
    ceil_div_mono (weigh (windowed config later) (X.entries s.expenses) * day_ms)
        (weigh (windowed config now) (X.entries s.expenses) * day_ms) config.burn_window_ms pos,
    weigh-windowed_anti config now later (X.entries s.expenses) h,
  )

  -- Between mutations the kept state can lag behind the clock, but only on the safe side: it is
  -- never healthier than the state that the rows derive later.
  pub settle_lags_safely :
      (clock : Readings) (later : ℕ) (s : Ledger B X)
      → 0 < config.burn_window_ms
      → clock.at_runway ≤ later
      → let s' = (settle config clock s).1 in
        health s'.current ≤ health (compute_treasury_state (runway_days config later s'))
  unfolding settle
  settle_lags_safely clock later s pos h =
      elim (Bool-cases
        (state_eq (compute_treasury_state (runway_days config clock.at_runway s)) s.current)) [
          | inl stays ↦ rw stays (
              compute_treasury_state_mono (total_value_usd config s) (total_value_usd config s)
                (daily_burn_usd config clock.at_runway s) (daily_burn_usd config later s)
                (le_refl _) (burn_anti clock.at_runway later s pos h))
          | inr moves ↦ rw moves (
              compute_treasury_state_mono (total_value_usd config s) (total_value_usd config s)
                (daily_burn_usd config clock.at_runway s) (daily_burn_usd config later s)
                (le_refl _) (burn_anti clock.at_runway later s pos h))
        ]
