-- ===== src/Ops/CoverageCheck.antt =====
-- ops/coverage.py: the check on the gaps of the cash ledger.
use bifrost_platform_plugin.Common.{
  Bool, true, false, Option, none, some, List, [], ◌∷◌, ◌++◌, map, length, if◌then◌else◌,
}
use bifrost_platform_plugin.Common.Text.{Text, codes, decimal, text_eq, text_le}
use bifrost_platform_plugin.Ingest.{join}
use bifrost_platform_plugin.Ops.Coverage.{Gap}
use bifrost_platform_plugin.Ops.Checks.{Check}

-- The gaps of each account, in the order of the gaps: by_acct.setdefault(account, []).append(month).
unfoldable pub add_month : Text → Text → List (Text × List Text) → List (Text × List Text)
add_month a m [] = (a, m ∷ []) ∷ []
add_month a m ((b, ms) ∷ by_acct) =
    let rest = add_month a m by_acct in
    if text_eq b a then (b, ms ++ (m ∷ [])) ∷ by_acct else (b, ms) ∷ rest

unfoldable pub by_account : List Gap → List (Text × List Text) → List (Text × List Text)
unfolding add_month
by_account [] by_acct = by_acct
by_account (g ∷ gaps) by_acct = by_account gaps (add_month g.gap_account g.gap_month by_acct)

insert_account : Text × List Text → List (Text × List Text) → List (Text × List Text)
unfolding text_le
insert_account (a, ms) [] = (a, ms) ∷ []
insert_account (a, ms) ((b, ns) ∷ by_acct) =
    let rest = insert_account (a, ms) by_acct in
    if text_le a b then (a, ms) ∷ (b, ns) ∷ by_acct else (b, ns) ∷ rest

-- sorted(by_acct.items())
unfoldable pub sorted_accounts : List (Text × List Text) → List (Text × List Text)
unfolding insert_account
sorted_accounts [] = []
sorted_accounts ((a, ms) ∷ by_acct) = insert_account (a, ms) (sorted_accounts by_acct)

abbrev account_part : Text × List Text → Text
account_part (a, ms) = a ++ (codes ": " ++ join (codes ", ") ms)

abbrev coverage_result : Bool → Text → Check
coverage_result is_ok detail = record { id = codes "coverage"; ok = is_ok; detail = detail }

abbrev covered : List Text → List Gap → Check
covered accounts [] = coverage_result true (
    codes "Cash transactions present in every closed month with executions ("
    ++ (decimal (length accounts) ++ codes " account(s))."))
covered accounts (g ∷ gaps) = coverage_result false (
    decimal (length (g ∷ gaps))
    ++ (codes " account-month(s) have executions but no cash transactions — "
        ++ (join (codes "; ") (map account_part (sorted_accounts (by_account (g ∷ gaps) [])))
            ++ codes
                ". Backfill with a flex-transactions job whose payload sets from_date/to_date.")))

-- The gaps that a failing check carries besides are those of its input.
unfoldable pub coverage_check : Option (List Text × List Gap) → Option Text → Check
unfolding sorted_accounts by_account join decimal
coverage_check cov (some (c ∷ e)) =
    coverage_result false (codes "Cash-ledger coverage unreadable: " ++ (c ∷ e))
coverage_check none error = covered [] []
coverage_check (some (accounts, gaps)) error = covered accounts gaps
