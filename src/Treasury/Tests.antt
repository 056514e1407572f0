-- ===== src/Treasury/Tests.antt =====
-- The treasury at concrete inputs, over tables in memory.
use deepseek_harness_web3_ag.Prelude.{
  ℕ, ◌≤◌, ◌<◌, ◌≡◌, refl, ◌↔◌, ◌⊎◌, true, none, some, List, [], ◌∷◌, codes, arith, All,
}
use deepseek_harness_web3_ag.Prelude.Maps.{get, insert, erase, keep_if}
use deepseek_harness_web3_ag.Treasury.Economics.{
  funded, critical, depleted, BudgetCategory, inference, tools, storage, share, budget_categories,
  default_budget_allocation, compute_runway, compute_treasury_state, authorize_cost,
}
use deepseek_harness_web3_ag.Treasury.Economics.Gradient.{
  Deserves, Allows, health, compute_treasury_state-Deserves, authorize_cost_iff,
}
use deepseek_harness_web3_ag.Treasury.Domain.{
  nat, fraction, ChainBalance, BalanceInput, Expense, ExpenseInput,
}
use deepseek_harness_web3_ag.Treasury.Domain.Memory.{memory}
use deepseek_harness_web3_ag.Treasury.Ledger.{
  Ledger, ok, err, invalid_balance, Readings, ResolvedConfig, expense_of, check_rows, insert_sorted,
  runway_days, report, settle, update_balances, record_expense,
}
use deepseek_harness_web3_ag.Treasury.Ledger.Settle.{
  Publishes, settle-Publishes, settle_lags_safely,
}
use deepseek_harness_web3_ag.Treasury.Ledger.Balances.{
  Replaced, update_balances-Replaced, Stopped, update_balances_fails,
}
use deepseek_harness_web3_ag.Treasury.Ledger.Expenses.{Recorded, record_expense-Recorded}
use deepseek_harness_web3_ag.Prelude.Integers.{pos}
use deepseek_harness_web3_ag.Treasury.Config.{
  finite, BudgetShares, given, Config, resolve_budget, resolve_config, IsWhole, or_number,
  resolve_budget_iff, resolve_config_lem,
}
use deepseek_harness_web3_ag.Treasury.Policy.{
  ResolvedPolicyConfig, PolicyState, Admitted, passed, unmetered, Stamp, is_funded, on_request,
  pre_execute, post_execute,
}
use deepseek_harness_web3_ag.Treasury.Policy.Gate.{Ends, Refuses, price, pre_execute-Ends}
use deepseek_harness_web3_ag.Treasury.Policy.Meter.{
  Charged, post_execute_charges_once, on_request_charges,
}

compute_treasury_state-Deserves_example :
    Deserves (compute_treasury_state (compute_runway 800 100)) 800 100
compute_treasury_state-Deserves_example = compute_treasury_state-Deserves 800 100 (omega arith)

authorize_cost_iff_example :
    ((authorize_cost critical inference 99999 default_budget_allocation 100).approved ≡ true)
    ↔ Allows critical inference 99999 default_budget_allocation 100
authorize_cost_iff_example =
    authorize_cost_iff critical inference 99999 default_budget_allocation 100

abbrev config : ResolvedConfig
config = record {
  budget = default_budget_allocation;
  burn_window_ms = 86400000;
  fixed_daily_burn_usd = 10;
  max_expenses = 2;
}

abbrev usdc : BalanceInput
usdc = record {
  chain = codes "base";
  token = codes "USDC";
  amount = nat 500;
  usd_estimate = nat 500;
}

abbrev dust : BalanceInput
dust = record { chain = codes "base"; token = codes " "; amount = fraction; usd_estimate = nat 0 }

abbrev Book : Type 0
Book = Ledger (memory ChainBalance) (memory Expense)

abbrev empty_book : Book
empty_book = record { balances = ([], tt); expenses = ([], tt); current = depleted; emitted = [] }

abbrev at : ℕ → Readings
at t = record { at_runway = t; at_burn = t; at_report = t }

abbrev book : Book
book = (update_balances config (usdc ∷ []) (at 1000) empty_book).1

book_state : book.current ≡ funded
unfolding update_balances compute_treasury_state compute_runway get insert erase keep_if
book_state = refl

abbrev paid : ExpenseInput
paid = record { category = some tools; amount = nat 40; token = none; description = none }

abbrev spent : Book
spent = (record_expense config paid 2000 (codes "exp-2000-a") (at 2000) book).1

record_expense-Recorded_example :
    (c : BudgetCategory) × (a : ℕ) × (some tools ≡ some c)
    × (some 40 ≡ some a)
    × Recorded config (codes "exp-2000-a") (expense_of paid 2000 c a) book spent
unfolding record_expense update_balances compute_treasury_state compute_runway get insert erase
    keep_if insert_sorted
record_expense-Recorded_example =
    record_expense-Recorded config paid 2000 (codes "exp-2000-a") (at 2000) book spent
      (report config 2000 2000 spent) refl

settle-Publishes_example :
    let s' = (settle config (at 90000000) spent).1 in
    (s'.current ≡ compute_treasury_state (runway_days config 90000000 s'))
    × (s'.balances ≡ spent.balances)
    × (s'.expenses ≡ spent.expenses)
    × Publishes config spent s'
settle-Publishes_example = settle-Publishes config (at 90000000) spent refl

settle_lags_safely_example :
    let s' = (settle config (at 2000) spent).1 in
    health s'.current ≤ health (compute_treasury_state (runway_days config 90000000 s'))
settle_lags_safely_example =
    settle_lags_safely config (at 2000) 90000000 spent (omega arith) (omega arith)

update_balances-Replaced_example :
    (rows : List ChainBalance) × (check_rows [] (usdc ∷ []) ≡ ok rows)
    × Replaced config rows empty_book book
unfolding update_balances compute_treasury_state compute_runway get insert erase keep_if
update_balances-Replaced_example =
    update_balances-Replaced config (usdc ∷ []) (at 1000) empty_book book
      (report config 1000 1000 book) refl

update_balances_fails_example :
    ((check_rows [] (usdc ∷ dust ∷ []) ≡ err invalid_balance) × (book ≡ book))
    ⊎ Stopped config invalid_balance book book
unfolding update_balances
update_balances_fails_example =
    update_balances_fails config (usdc ∷ dust ∷ []) (at 3000) invalid_balance book book refl

abbrev policy : ResolvedPolicyConfig
policy = record {
  enabled = true;
  usd_per_million_tokens = 2000000;
  tool_costs = (codes "wallet_*", 50) ∷ [];
  tool_categories = (codes "wallet_send", storage) ∷ [];
  default_tool_cost_usd = 0;
  exempt = [];
}

abbrev no_calls : PolicyState
no_calls = record { pending_step = []; admitted = [] }

abbrev bare_book : Book
bare_book = record book { current = depleted }

abbrev stamp : Stamp
stamp = record { now = 2000; key = codes "exp-2000-b"; clock = at 2000 }

depleted-Refuses : Refuses config policy inference 200 bare_book
unfolding is_funded update_balances insert compute_treasury_state compute_runway
depleted-Refuses = (refl, refl, λ allowed. allowed)

on_request_charges_example :
    let (o, p', s') =
      on_request config policy (codes "a1") 1 1 100 true (codes "model") stamp (no_calls, book) in
    let cost = price policy (codes "a1") 1 1 100 no_calls in
    (get (codes "a1") p'.pending_step ≡ none)
    × (o ≡ passed
        → ((cost ≡ 0) × (s' ≡ book))
          ⊎ ((0 < cost) × Charged config policy inference cost (codes "model") stamp book s'))
on_request_charges_example =
    on_request_charges config policy (codes "a1") 1 1 100 true (codes "model") stamp no_calls book

pre_execute-Ends_example :
    Ends config policy
      (codes "t1")
      (codes "wallet_send")
      no_calls
      book
      (pre_execute config policy (codes "t1") (codes "wallet_send") (no_calls, book))
pre_execute-Ends_example =
    pre_execute-Ends config policy (codes "t1") (codes "wallet_send") no_calls book

abbrev call : Admitted
call = record { category = storage; cost_usd = 50; tool = codes "wallet_send" }

abbrev calls : PolicyState
calls = record { pending_step = []; admitted = (codes "t1", call) ∷ [] }

post_execute_charges_once_example :
    let (o, p', s') = post_execute config policy (codes "t1") stamp (calls, book) in
    (((o ≡ passed) × Charged config policy storage 50 (codes "tool wallet_send") stamp book s')
      ⊎ (o ≡ unmetered))
    × (post_execute config policy (codes "t1") stamp (p', s') ≡ (passed, p', s'))
unfolding get
post_execute_charges_once_example =
    post_execute_charges_once config policy (codes "t1") stamp stamp calls book call refl

abbrev shares : BudgetShares
shares = record {
  inference = finite (pos 38);
  tools = finite (pos 14);
  infrastructure = finite (pos 28);
  storage = finite (pos 5);
  messaging = finite (pos 10);
  reserve = finite (pos 5);
}

resolve_budget_iff_example :
    (resolve_budget (some shares) ≡ some default_budget_allocation)
    ↔ All (λ c. given shares c ≡ finite (pos (share default_budget_allocation c))) budget_categories
      × IsWhole default_budget_allocation
resolve_budget_iff_example = resolve_budget_iff shares default_budget_allocation

abbrev knobs : Config
knobs = record {
  budget = none;
  burn_window_ms = none;
  fixed_daily_burn_usd = some (nat 10);
  max_expenses = some (nat 2);
}

resolve_config_lem_example :
    IsWhole config.budget
    × (1 ≤ config.burn_window_ms)
    × (1 ≤ config.max_expenses)
    × (or_number knobs.burn_window_ms 86400000 ≡ some config.burn_window_ms)
    × (or_number knobs.fixed_daily_burn_usd 0 ≡ some config.fixed_daily_burn_usd)
    × (or_number knobs.max_expenses 1000 ≡ some config.max_expenses)
unfolding resolve_config
resolve_config_lem_example = resolve_config_lem knobs config refl
