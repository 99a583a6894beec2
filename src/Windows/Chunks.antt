-- ===== src/Windows/Chunks.antt =====
-- orchestration/transactions.py: the chunks of a window.
use bifrost_platform_plugin.Common.{
  ℕ, zero, suc, ◌+◌, ◌-◌, ◌≤◌, ◌<◌, ◌≡◌, refl, false, List, [], ◌∷◌, arith, leb, ltb, min,
  Bool-cases, inl, inr, le→leb,
}
use bifrost_platform_plugin.Common.Result.{Result, ok}
use bifrost_platform_plugin.Windows.{plus_days, max_ordinal, split_from, split_window}

-- The chunks are the days from `first` to `end`, in order: each starts the day after the one before
-- it ends, and spans at most `span` days.
abbrev pub Covers : ℕ → ℕ → ℕ → List (ℕ × ℕ) → Type 0
Covers span first end [] = first ≡ end + 1
Covers span first end ((a, b) ∷ rest) =
    (a ≡ first) × (a ≤ b) × (b ≤ end) × (b ≤ a + span) × Covers span (b + 1) end rest

plus_days_lem : (d n : ℕ) → d + n ≤ max_ordinal → plus_days d n ≡ ok (d + n)
unfolding plus_days
plus_days_lem d n h = ground arith

abbrev pub Chunked : ℕ → ℕ → ℕ → Result (List (ℕ × ℕ)) → Type 0
Chunked span first end r = (chunks : List (ℕ × ℕ)) × (r ≡ ok chunks) × Covers span first end chunks

-- One round of the loop, before the chunks of the later rounds.
after_chunk :
    (fuel end span cur : ℕ)
    → cur ≤ end
    → cur + span ≤ max_ordinal
    → min end (cur + span) + 1 ≤ max_ordinal
    → Chunked span
        (min end (cur + span) + 1)
        end
        (split_from fuel end span (min end (cur + span) + 1))
    → Chunked span cur end (split_from (suc fuel) end span cur)
unfolding split_from
after_chunk fuel end span cur inside room room' (rest, returned, covers) = (
  ((cur, min end (cur + span)) ∷ rest),
  (rw
      (
        le→leb cur end inside,
        split_from,
        plus_days_lem cur span room,
        plus_days_lem (min end (cur + span)) 1 room',
        returned,
      )
      refl),
  (refl, ground arith, ground arith, ground arith, covers),
)

split_from-Covers :
    (fuel end span cur : ℕ)
    → end + span ≤ max_ordinal
    → end < max_ordinal
    → cur ≤ end + 1
    → end + 1 < cur + fuel
    → Chunked span cur end (split_from fuel end span cur)
unfolding split_from
split_from-Covers zero end span cur room room' at_most fuel = absurd (omega arith)
split_from-Covers (suc fuel) end span cur room room' at_most enough =
    elim (Bool-cases (leb cur end)) [
      | inl inside ↦ after_chunk fuel end span cur (ground arith) (ground arith) (ground arith) (
          split_from-Covers fuel end span (min end (cur + span) + 1) room room' (ground arith)
            (ground arith))
      | inr past ↦ ([], (rw (past, split_from) refl), ground arith)
    ]

le→ltb-no : (a b : ℕ) → a ≤ b → ltb b a ≡ false
le→ltb-no a b h = ground arith

-- A window that is not empty and does not reach the end of the calendar is split into chunks of at
-- most `span` days more than one, which cover its days in order, each once.
pub split_window-Covers :
    (start end span : ℕ)
    → start ≤ end
    → end + span ≤ max_ordinal
    → end < max_ordinal
    → Chunked span start end (split_window start end span)
unfolding split_window
split_window-Covers start end span in_order room room' =
    rw (le→ltb-no start end in_order)
      (split_from-Covers (end - start + 2) end span start room room' (ground arith) (ground arith))
