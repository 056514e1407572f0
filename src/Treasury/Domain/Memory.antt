-- ===== src/Treasury/Domain/Memory.antt =====
-- A table in memory that refuses no write: what `Table` asks for can be met.
use deepseek_harness_web3_ag.Prelude.Distinct.{Distinct, Distinct-erase, Distinct-insert}
use deepseek_harness_web3_ag.Prelude.{◌≡◌, ap, Option, none, some, Text, text_eq, if◌then◌else◌}
use deepseek_harness_web3_ag.Prelude.Maps.{Dict, get, insert, erase, get-insert, get-erase}
use deepseek_harness_web3_ag.Treasury.Domain.{Table}

module _ {V : Type 0} where
  abbrev pub put_row : Text → V → (m : Dict V) × Distinct m → Option ((m : Dict V) × Distinct m)
  put_row k r (m, d) = some (insert k r m, Distinct-insert k r m d)

  abbrev pub delete_row : Text → (m : Dict V) × Distinct m → Option ((m : Dict V) × Distinct m)
  delete_row k (m, d) = some (erase k m, Distinct-erase k m d)

  pub get-put_row :
      (k j : Text) (r : V) (t u : (m : Dict V) × Distinct m)
      → put_row k r t ≡ some u
      → get j u.0 ≡ (if text_eq k j then some r else get j t.0)
  get-put_row k j r (m, d) u h = rw (← ap (rows_or m) h) (get-insert k j r m)
    where
      rows_or : Dict V → Option ((n : Dict V) × Distinct n) → Dict V
      rows_or n none = n
      rows_or n (some t) = t.0

  pub get-delete_row :
      (k j : Text) (t u : (m : Dict V) × Distinct m)
      → delete_row k t ≡ some u
      → get j u.0 ≡ (if text_eq k j then none else get j t.0)
  get-delete_row k j (m, d) u h = rw (← ap (rows_or m) h) (get-erase k j m)
    where
      rows_or : Dict V → Option ((n : Dict V) × Distinct n) → Dict V
      rows_or n none = n
      rows_or n (some t) = t.0

abbrev pub memory : (Row : Type 0) → Table Row
memory Row = record {
  Rows = (m : Dict Row) × Distinct m;
  entries = λ t. t.0;
  put = put_row;
  delete = delete_row;
  distinct = λ t. t.1;
  get-put = get-put_row;
  get-delete = get-delete_row;
}
