-- ===== src/Cron/Next.antt =====
-- scheduler/cronutil.py: the fires that are still to come.
use bifrost_platform_plugin.Common.{ℕ, ◌≤◌, List, [], ◌∷◌, All}
use bifrost_platform_plugin.Common.Text.{Text}
use bifrost_platform_plugin.Cron.{Cron}

-- No member comes before the first.
abbrev Oldest : List ℕ → Type 0
Oldest [] = Unit {0}
Oldest (t ∷ ts) = All (λ u. t ≤ u) ts
