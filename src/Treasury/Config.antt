-- ===== src/Treasury/Config.antt =====
-- `resolveConfig` and `resolveBudget` of dsh-treasury/src/index.ts. A configured share of a budget is any
-- number but one with a fraction.
use deepseek_harness_web3_ag.Prelude.{
  ℕ, ◌+◌, ◌≤◌, ◌≡◌, ◌↔◌, refl, sym, ap, ◌∙◌, inl, inr, Bool, true, false, Option, none, some, List,
  [], ◌∷◌, ltb, ◌==◌, if◌then◌else◌, arith, All, Bool-cases,
}
use deepseek_harness_web3_ag.Prelude.Integers.{ℤ, pos, negsuc, ◌+ℤ◌}
use deepseek_harness_web3_ag.Treasury.Economics.{
  BudgetCategory, BudgetAllocation, share, budget_categories, default_budget_allocation,
}
use deepseek_harness_web3_ag.Treasury.Domain.{Number, nat, natural?}
use deepseek_harness_web3_ag.Treasury.Ledger.{ResolvedConfig}

-- A configured share.
pub data Share : Type 0 where
  finite : ℤ → Share
  nan infinite : Share

-- A configured budget, before `resolveBudget`.
pub record BudgetShares : Type 0 where
  pub inference : Share
  pub tools : Share
  pub infrastructure : Share
  pub storage : Share
  pub messaging : Share
  pub reserve : Share

-- `budget[category]`
abbrev pub given : BudgetShares → BudgetCategory → Share
given b BudgetCategory.inference = b.inference
given b BudgetCategory.tools = b.tools
given b BudgetCategory.infrastructure = b.infrastructure
given b BudgetCategory.storage = b.storage
given b BudgetCategory.messaging = b.messaging
given b BudgetCategory.reserve = b.reserve

-- `Config`; an absent member is `none`.
pub record Config : Type 0 where
  pub budget : Option BudgetShares
  pub burn_window_ms : Option Number
  pub fixed_daily_burn_usd : Option Number
  pub max_expenses : Option Number

-- `!Number.isFinite(share) || share < 0 || share > 100`
abbrev is_bad : Share → Bool
is_bad nan = true
is_bad infinite = true
is_bad (finite (negsuc n)) = true
is_bad (finite (pos n)) = ltb 100 n

-- `total += share`, for a finite share.
abbrev add_share : ℤ → Share → ℤ
add_share total (finite n) = total +ℤ n
add_share total nan = total
add_share total infinite = total

-- The loop over the categories: the total, or `none` where a share is refused.
unfoldable pub sum_shares : BudgetShares → ℤ → List BudgetCategory → Option ℤ
unfolding ◌+ℤ◌
sum_shares budget total [] = some total
sum_shares budget total (category ∷ categories) =
    let rest = sum_shares budget (add_share total (given budget category)) categories in
    if is_bad (given budget category) then none else rest

abbrev is_whole : Option ℤ → Bool
is_whole none = false
is_whole (some (pos total)) = total == 100
is_whole (some (negsuc n)) = false

abbrev natural_of : Share → ℕ
natural_of (finite (pos n)) = n
natural_of _ = 0

-- A budget that passed the loop, whose shares are naturals.
abbrev pub percents : BudgetShares → BudgetAllocation
percents b = record {
  inference = natural_of b.inference;
  tools = natural_of b.tools;
  infrastructure = natural_of b.infrastructure;
  storage = natural_of b.storage;
  messaging = natural_of b.messaging;
  reserve = natural_of b.reserve;
}

-- `none` where the source throws `invalid-budget`.
unfoldable pub resolve_budget : Option BudgetShares → Option BudgetAllocation
unfolding sum_shares
resolve_budget none = some default_budget_allocation
resolve_budget (some budget) =
    if is_whole (sum_shares budget (pos 0) budget_categories) then some (percents budget) else none

-- `config.x ?? d`, an integer that is at least `low`.
abbrev knob : Option Number → ℕ → ℕ → Option ℕ
knob none d low = some d
knob (some x) d low = at_least (natural? x)
  where
    at_least : Option ℕ → Option ℕ
    at_least none = none
    at_least (some n) = if ltb n low then none else some n

abbrev assemble : Option BudgetAllocation → Option ℕ → Option ℕ → Option ℕ → Option ResolvedConfig
assemble (some budget) (some window) (some fixed) (some cap) = some (record {
  budget = budget;
  burn_window_ms = window;
  fixed_daily_burn_usd = fixed;
  max_expenses = cap;
})
assemble _ _ _ _ = none

unfoldable pub resolve_config : Config → Option ResolvedConfig
unfolding resolve_budget
resolve_config config =
    assemble (resolve_budget config.budget) (knob config.burn_window_ms 86400000 1)
      (knob config.fixed_daily_burn_usd 0 0) (knob config.max_expenses 1000 1)

-- The six shares of a budget, none past 100, make up the whole.
abbrev pub IsWhole : BudgetAllocation → Type 0
IsWhole b =
    (b.inference + b.tools + b.infrastructure + b.storage + b.messaging + b.reserve ≡ 100)
    × All (λ c. share b c ≤ 100) budget_categories

-- The shares of the categories together.
abbrev total_of : BudgetAllocation → List BudgetCategory → ℕ
total_of r [] = 0
total_of r (c ∷ cs) = share r c + total_of r cs

-- The share is given as this percentage, which is none past 100.
abbrev IsGiven : BudgetShares → BudgetAllocation → BudgetCategory → Type 0
IsGiven b r c = (given b c ≡ finite (pos (share r c))) × (share r c ≤ 100)

share-percents :
    (b : BudgetShares) (c : BudgetCategory) → share (percents b) c ≡ natural_of (given b c)
share-percents b BudgetCategory.inference = refl
share-percents b BudgetCategory.tools = refl
share-percents b BudgetCategory.infrastructure = refl
share-percents b BudgetCategory.storage = refl
share-percents b BudgetCategory.messaging = refl
share-percents b BudgetCategory.reserve = refl

is_bad-natural :
    (x : Share) → is_bad x ≡ false → (x ≡ finite (pos (natural_of x))) × (natural_of x ≤ 100)
is_bad-natural nan h = absurd (ground arith)
is_bad-natural infinite h = absurd (ground arith)
is_bad-natural (finite (negsuc n)) h = absurd (ground arith)
is_bad-natural (finite (pos n)) h = (refl, ground arith)

add_share-pos : (t n : ℕ) (x : Share) → x ≡ finite (pos n) → add_share (pos t) x ≡ pos (t + n)
unfolding ◌+ℤ◌
add_share-pos t n x e = rw e refl

module _ (b : BudgetShares) (r : BudgetAllocation) where
  sum_shares-IsGiven :
      (t : ℕ) (cs : List BudgetCategory)
      → All (IsGiven b r) cs
      → sum_shares b (pos t) cs ≡ some (pos (t + total_of r cs))
  unfolding sum_shares
  sum_shares-IsGiven t [] h = ap (λ n. some (pos n)) (omega arith)
  sum_shares-IsGiven t (c ∷ cs) ((e, small), hs) =
      let fine : is_bad (given b c) ≡ false = rw e (ground arith) in
      rw (fine, add_share-pos t (share r c) (given b c) e)
        (sum_shares-IsGiven (t + share r c) cs hs ∙ ap (λ n. some (pos n)) (omega arith))

IsGiven-sum_shares :
    (b : BudgetShares) (t : ℕ) (z : ℤ) (cs : List BudgetCategory)
    → sum_shares b (pos t) cs ≡ some z
    → All (IsGiven b (percents b)) cs
unfolding sum_shares
IsGiven-sum_shares b t z [] h = tt
IsGiven-sum_shares b t z (c ∷ cs) h = elim (Bool-cases (is_bad (given b c))) [
  | inl bad ↦ absurd (ground (arith, rw bad at h))
  | inr fine ↦
      let (e, small) = is_bad-natural (given b c) fine in
      let n = natural_of (given b c) in
      (
        rw (share-percents b c) (e, small),
        IsGiven-sum_shares b (t + n) z cs (rw (fine, add_share-pos t n (given b c) e) at h),
      )
]

is_whole-some : (x : Option ℤ) → is_whole x ≡ true → x ≡ some (pos 100)
is_whole-some none h = absurd (ground arith)
is_whole-some (some (pos n)) h = ap (λ m. some (pos m)) (ground arith)
is_whole-some (some (negsuc n)) h = absurd (ground arith)

some_pos : (m n : ℕ) → some (pos m) ≡ some (pos n) → m ≡ n
some_pos m n h = cc

resolve_budget-IsGiven :
    (b : BudgetShares) (r : BudgetAllocation)
    → resolve_budget (some b) ≡ some r
    → All (IsGiven b r) budget_categories × (total_of r budget_categories ≡ 100)
unfolding resolve_budget
resolve_budget-IsGiven b r h =
    elim (Bool-cases (is_whole (sum_shares b (pos 0) budget_categories))) [
      | inr other ↦ absurd (ground (arith, rw other at h))
      | inl fits ↦
          let same : percents b ≡ r = cc (rw fits at h) in
          let hundred = is_whole-some _ fits in
          let all_given = IsGiven-sum_shares b 0 (pos 100) budget_categories hundred in
          let sum = sum_shares-IsGiven b (percents b) 0 budget_categories all_given in
          let total : 0 + total_of (percents b) budget_categories ≡ 100 =
            some_pos _ 100 (sym sum ∙ hundred) in
          rw (← same) (all_given, omega (arith, total))
    ]

resolve_budget-IsWhole :
    (b : Option BudgetShares) (r : BudgetAllocation) → resolve_budget b ≡ some r → IsWhole r
unfolding resolve_budget
resolve_budget-IsWhole none r h = ground arith
resolve_budget-IsWhole (some b) r h =
    let (all_given, total) = resolve_budget-IsGiven b r h in
    (
      omega (arith, total),
      (
        all_given.0.1,
        (
          all_given.1.0.1,
          (
            all_given.1.1.0.1,
            (all_given.1.1.1.0.1, (all_given.1.1.1.1.0.1, (all_given.1.1.1.1.1.0.1, tt))),
          ),
        ),
      ),
    )

percents-given :
    (b : BudgetShares) (r : BudgetAllocation)
    → All (λ c. given b c ≡ finite (pos (share r c))) budget_categories
    → percents b ≡ r
percents-given b r (i, (t, (f, (s, (m, (v, _)))))) = rw (i, t, f, s, m, v) refl

resolve_budget-taken :
    (b : BudgetShares) (r : BudgetAllocation)
    → All (λ c. given b c ≡ finite (pos (share r c))) budget_categories
    → IsWhole r
    → resolve_budget (some b) ≡ some r
unfolding resolve_budget
resolve_budget-taken b r (i, (t, (f, (s, (m, (v, _))))))
      (total, (i', (t', (f', (s', (m', (v', _))))))) =
    let sum =
      sum_shares-IsGiven b r 0 budget_categories
        ((i, i'), ((t, t'), ((f, f'), ((s, s'), ((m, m'), ((v, v'), tt)))))) in
    let whole : total_of r budget_categories ≡ 100 = omega (arith, total) in
    rw (sum, whole) (ap some (percents-given b r (i, (t, (f, (s, (m, (v, tt))))))))

-- A configured budget is taken exactly when each of its shares is a finite number from 0 to 100 and they
-- add up to 100, and then with those shares; a NaN, an infinite, a negative or a greater share is refused.
-- The shares are integers.
pub resolve_budget_iff :
    (b : BudgetShares) (r : BudgetAllocation)
    → (resolve_budget (some b) ≡ some r)
      ↔ All (λ c. given b c ≡ finite (pos (share r c))) budget_categories × IsWhole r
resolve_budget_iff b r = (
  λ h.
      let (g, _) = resolve_budget-IsGiven b r h in
      (
        (g.0.0, (g.1.0.0, (g.1.1.0.0, (g.1.1.1.0.0, (g.1.1.1.1.0.0, (g.1.1.1.1.1.0.0, tt)))))),
        resolve_budget-IsWhole (some b) r h,
      ),
  λ h. resolve_budget-taken b r h.0 h.1,
)

-- The number that stands for a member.
abbrev pub or_number : Option Number → ℕ → Option ℕ
or_number none d = some d
or_number (some x) d = natural? x

knob_lem :
    (x : Option Number) (d low n : ℕ)
    → low ≤ d
    → knob x d low ≡ some n
    → (low ≤ n) × (or_number x d ≡ some n)
knob_lem none d low n fine h = ground arith
knob_lem (some (nat m)) d low n fine h = ground arith
knob_lem (some Number.fraction) d low n fine h = absurd (ground arith)
knob_lem (some Number.negative) d low n fine h = absurd (ground arith)
knob_lem (some Number.nan) d low n fine h = absurd (ground arith)
knob_lem (some Number.infinite) d low n fine h = absurd (ground arith)

assemble_lem :
    (b : Option BudgetAllocation) (w f c : Option ℕ) (r : ResolvedConfig)
    → assemble b w f c ≡ some r
    → (b ≡ some r.budget)
      × (w ≡ some r.burn_window_ms)
      × (f ≡ some r.fixed_daily_burn_usd)
      × (c ≡ some r.max_expenses)
assemble_lem (some b) (some w) (some f) (some c) r h = ground arith
assemble_lem none w f c r h = absurd (ground arith)
assemble_lem (some b) none f c r h = absurd (ground arith)
assemble_lem (some b) (some w) none c r h = absurd (ground arith)
assemble_lem (some b) (some w) (some f) none r h = absurd (ground arith)

-- An accepted configuration has a whole budget, a window and a cap that are not 0, and the values that
-- were given: a missing one stands for a day, no fixed burn, and a thousand rows.
pub resolve_config_lem :
    (config : Config) (r : ResolvedConfig)
    → resolve_config config ≡ some r
    → IsWhole r.budget
      × (1 ≤ r.burn_window_ms)
      × (1 ≤ r.max_expenses)
      × (or_number config.burn_window_ms 86400000 ≡ some r.burn_window_ms)
      × (or_number config.fixed_daily_burn_usd 0 ≡ some r.fixed_daily_burn_usd)
      × (or_number config.max_expenses 1000 ≡ some r.max_expenses)
unfolding resolve_config
resolve_config_lem config r h =
    let (budget, window, fixed, cap) =
      assemble_lem (resolve_budget config.budget) (knob config.burn_window_ms 86400000 1)
        (knob config.fixed_daily_burn_usd 0 0) (knob config.max_expenses 1000 1) r h in
    let (positive, same_window) =
      knob_lem config.burn_window_ms 86400000 1 r.burn_window_ms (omega arith) window in
    let (_, same_fixed) =
      knob_lem config.fixed_daily_burn_usd 0 0 r.fixed_daily_burn_usd (omega arith) fixed in
    let (some_rows, same_cap) =
      knob_lem config.max_expenses 1000 1 r.max_expenses (omega arith) cap in
    (
      resolve_budget-IsWhole config.budget r.budget budget,
      positive,
      some_rows,
      same_window,
      same_fixed,
      same_cap,
    )
