-- ===== src/Ops/Coverage.antt =====
-- ops/coverage.py: the rows of the coverage query, the gaps of each account, and the check on them. The query
-- itself is an argument, its rows in its order; `month_text` is strftime("%Y-%m").
use bifrost_platform_plugin.Common.{
  ℕ, suc, ◌+◌, ◌≡◌, refl, ap, ◌∙◌, Bool-cases, inl, inr, Bool, not, any, List, [], ◌∷◌, ◌++◌,
  filter, if◌then◌else◌, arith,
}
use bifrost_platform_plugin.Common.Text.{Text, text_eq, text_eq_iff}

-- A row: the account, the month, the executions in it, and whether no cash row is there.
pub record CoverageRow : Type 0 where
  pub account_id : Text
  pub month : ℕ
  pub executions : ℕ
  pub gap : Bool

pub record Gap : Type 0 where
  pub gap_account : Text
  pub gap_month : Text
  pub gap_executions : ℕ

unfoldable pub has_account : Text → List Text → Bool
unfolding text_eq
has_account a accounts = any (text_eq a) accounts

-- The accounts in the order of the rows, each once, behind those that are listed already.
unfoldable pub accounts_from : List Text → List CoverageRow → List Text
unfolding has_account
accounts_from accounts [] = accounts
accounts_from accounts (r ∷ rows) =
    accounts_from
      (if has_account r.account_id accounts then accounts else accounts ++ (r.account_id ∷ [])) rows

unfoldable pub gaps_of : (ℕ → Text) → List CoverageRow → List Gap
gaps_of month_text [] = []
gaps_of month_text (r ∷ rows) =
    let rest = gaps_of month_text rows in
    if r.gap
    then (record {
      gap_account = r.account_id;
      gap_month = month_text r.month;
      gap_executions = r.executions;
    })
      ∷ rest
    else rest

-- read_coverage, with the accounts in the order of the rows; `sorted` is sorted() on them.
unfoldable pub read_coverage :
    (List Text → List Text) → (ℕ → Text) → List CoverageRow → List Text × List Gap
unfolding accounts_from gaps_of
read_coverage sorted month_text rows = (sorted (accounts_from [] rows), gaps_of month_text rows)

-- out[account] = out.get(account, 0) + 1
unfoldable pub add_gap : Text → List (Text × ℕ) → List (Text × ℕ)
add_gap a [] = (a, 1) ∷ []
add_gap a ((b, n) ∷ counts) =
    let rest = add_gap a counts in if text_eq b a then (b, suc n) ∷ counts else (b, n) ∷ rest

unfoldable pub count_gaps : List Gap → List (Text × ℕ) → List (Text × ℕ)
unfolding add_gap
count_gaps [] counts = counts
count_gaps (g ∷ gaps) counts = count_gaps gaps (add_gap g.gap_account counts)

-- {a: 0 for a in accounts}: an account that is named twice is one key.
unfoldable pub zeros : List Text → List (Text × ℕ)
zeros [] = []
zeros (a ∷ accounts) = (a, 0) ∷ filter (λ kv. not (text_eq kv.0 a)) (zeros accounts)

unfoldable pub gap_months_by_account : List Text × List Gap → List (Text × ℕ)
unfolding count_gaps zeros
gap_months_by_account (accounts, gaps) = count_gaps gaps (zeros accounts)

-- out.get(account, 0)
unfoldable pub months_of : List (Text × ℕ) → Text → ℕ
months_of [] a = 0
months_of ((b, n) ∷ counts) a = let rest = months_of counts a in if text_eq b a then n else rest

-- The gaps of an account.
unfoldable pub gaps_at : Text → List CoverageRow → ℕ
gaps_at a [] = 0
gaps_at a (r ∷ rows) =
    let rest = gaps_at a rows in
    if r.gap then (if text_eq r.account_id a then suc rest else rest) else rest

months_of-add_gap :
    (a b : Text) (counts : List (Text × ℕ))
    → months_of (add_gap b counts) a
      ≡ (if text_eq b a then suc (months_of counts a) else months_of counts a)
unfolding months_of add_gap
months_of-add_gap a b [] = ground arith
months_of-add_gap a b ((c, n) ∷ counts) =
    ground (arith, text_eq_iff b a, text_eq_iff c a, text_eq_iff c b, months_of-add_gap a b counts)

zero_plus : (n : ℕ) → 0 + n ≡ n
zero_plus n = omega arith

abbrev ZeroEach : List (Text × ℕ) → Type 0
ZeroEach [] = Unit
ZeroEach ((b, n) ∷ counts) = (n ≡ 0) × ZeroEach counts

zero-filter :
    (b : Text) (counts : List (Text × ℕ))
    → ZeroEach counts
    → ZeroEach (filter (λ kv. not (text_eq kv.0 b)) counts)
zero-filter b [] h = tt
zero-filter b ((c, n) ∷ counts) h = elim (Bool-cases (text_eq c b)) [
  | inl same ↦ rw same (zero-filter b counts h.1)
  | inr other ↦ rw other (h.0, zero-filter b counts h.1)
]

zeros-ZeroEach : (accounts : List Text) → ZeroEach (zeros accounts)
unfolding zeros
zeros-ZeroEach [] = tt
zeros-ZeroEach (a ∷ accounts) = (refl, zero-filter a (zeros accounts) (zeros-ZeroEach accounts))

months_of-ZeroEach :
    (a : Text) (counts : List (Text × ℕ)) → ZeroEach counts → months_of counts a ≡ 0
unfolding months_of
months_of-ZeroEach a [] h = refl
months_of-ZeroEach a ((b, n) ∷ counts) h = ground (arith, h.0, months_of-ZeroEach a counts h.1)

months_of-count_gaps :
    (month_text : ℕ → Text) (a : Text) (rows : List CoverageRow) (counts : List (Text × ℕ))
    → months_of (count_gaps (gaps_of month_text rows) counts) a
      ≡ months_of counts a + gaps_at a rows
unfolding count_gaps gaps_of gaps_at
months_of-count_gaps month_text a [] counts = omega arith
months_of-count_gaps month_text a (r ∷ rows) counts = ground (
  arith,
  months_of-count_gaps month_text a rows counts,
  months_of-count_gaps month_text a rows (add_gap r.account_id counts),
  months_of-add_gap a r.account_id counts,
)

-- The months that an account is shown with are its rows of the query that have a gap, also for an account
-- that has none.
pub gap_months_by_account-gaps_at :
    (sorted : List Text → List Text) (month_text : ℕ → Text) (a : Text) (rows : List CoverageRow)
    → months_of (gap_months_by_account (read_coverage sorted month_text rows)) a ≡ gaps_at a rows
unfolding gap_months_by_account read_coverage
gap_months_by_account-gaps_at sorted month_text a rows =
    months_of-count_gaps month_text a rows (zeros (sorted (accounts_from [] rows)))
    ∙ ap (λ n. n + gaps_at a rows)
        (months_of-ZeroEach a _ (zeros-ZeroEach (sorted (accounts_from [] rows))))
    ∙ zero_plus (gaps_at a rows)
