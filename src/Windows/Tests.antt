-- ===== src/Windows/Tests.antt =====
-- orchestration/transactions.py and orchestration/trades.py: windows of a few days.
use bifrost_platform_plugin.Common.{arith, [], ◌∷◌}
use bifrost_platform_plugin.Windows.{split_window, transactions_window}
use bifrost_platform_plugin.Windows.Chunks.{Chunked, split_window-Covers}
use bifrost_platform_plugin.Windows.Bounds.{Reaches, transactions_window-Reaches}

split_window-Covers_example : Chunked 364 739000 739700 (split_window 739000 739700 364)
split_window-Covers_example =
    split_window-Covers 739000 739700 364 (omega arith) (omega arith) (omega arith)

transactions_window-Reaches_example :
    Reaches 7
      (739695 ∷ 739600 ∷ [])
      739701
      (transactions_window (739695 ∷ 739600 ∷ []) 7 365 739701)
transactions_window-Reaches_example =
    transactions_window-Reaches 739695 (739600 ∷ []) 7 365 739701 (omega arith)
