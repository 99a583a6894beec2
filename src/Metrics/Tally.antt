-- ===== src/Metrics/Tally.antt =====
-- api/http_metrics.py: the rows of a histogram against the list of its observations.
use bifrost_platform_plugin.Common.{
  ℕ, ◌+◌, ◌≤◌, ◌≡◌, refl, List, [], ◌∷◌, map, arith, leb, leb→le, if◌then◌else◌, length, All,
  All-map, Bool-cases, inl, inr,
}
use bifrost_platform_plugin.Metrics.{Histogram, zero_counts, new_histogram, bump, observe, buckets}

-- 1 where the duration does not exceed the bound.
abbrev pub within : ℕ → ℕ → ℕ
within seconds bound = if leb seconds bound then 1 else 0

-- How many of the durations do not exceed the bound.
unfoldable pub at_most : ℕ → List ℕ → ℕ
at_most bound [] = 0
at_most bound (seconds ∷ log) = at_most bound log + within seconds bound

unfoldable pub sum : List ℕ → ℕ
sum [] = 0
sum (seconds ∷ log) = sum log + seconds

abbrev pub Ascending : List ℕ → Type 0
Ascending [] = Unit {0}
Ascending (bound ∷ bounds) = All (λ b. bound ≤ b) bounds × Ascending bounds

-- The running sums of the counts are the values of f at the bounds.
abbrev Tally : ℕ → List ℕ → List ℕ → (ℕ → ℕ) → Type 0
Tally running [] counts f = Unit {0}
Tally running (bound ∷ bounds) [] f = ⊥
Tally running (bound ∷ bounds) (c ∷ counts) f =
    (running + c ≡ f bound) × Tally (running + c) bounds counts f

Tally-zeros : (bounds : List ℕ) → Tally 0 bounds (zero_counts bounds) (λ b. at_most b [])
unfolding at_most
Tally-zeros [] = tt
Tally-zeros (bound ∷ bounds) = (refl, Tally-zeros bounds)

module _ (f : ℕ → ℕ) (seconds : ℕ) where
  abbrev one_more : ℕ → ℕ
  one_more b = f b + within seconds b

  -- Behind the bound that counts the duration, each sum is one more.
  Tally-suc :
      (running running' : ℕ) (bounds counts : List ℕ)
      → running' ≡ running + 1
      → All (λ b. seconds ≤ b) bounds
      → Tally running bounds counts f
      → Tally running' bounds counts one_more
  Tally-suc running running' [] counts e above t = tt
  Tally-suc running running' (bound ∷ bounds) [] e above t = t
  Tally-suc running running' (bound ∷ bounds) (c ∷ counts) e above t = (
    ground (arith, above.0, t.0, e),
    Tally-suc (running + c) (running' + c) bounds counts (omega arith) above.1 t.1,
  )

  Tally-bump :
      (running : ℕ) (bounds counts : List ℕ)
      → Ascending bounds
      → Tally running bounds counts f
      → Tally running bounds (bump seconds bounds counts) one_more
  unfolding bump
  Tally-bump running [] counts a t = tt
  Tally-bump running (bound ∷ bounds) [] a t = t
  Tally-bump running (bound ∷ bounds) (c ∷ counts) a t = elim (Bool-cases (leb seconds bound)) [
    | inl fits ↦
        let above : All (λ b. seconds ≤ b) bounds =
          All-map (λ b (h : bound ≤ b). omega (arith, leb→le seconds bound fits)) bounds a.0 in
        rw fits (
          ground (arith, t.0, fits),
          Tally-suc (running + c) (running + (c + 1)) bounds counts (omega arith) above t.1,
        )
    | inr over ↦ rw over (ground (arith, t.0, over), Tally-bump (running + c) bounds counts a.1 t.1)
  ]

Tally-buckets :
    (running : ℕ) (bounds counts : List ℕ) (f : ℕ → ℕ)
    → Tally running bounds counts f
    → buckets running bounds counts ≡ map (λ b. (b, f b)) bounds
unfolding buckets
Tally-buckets running [] counts f t = refl
Tally-buckets running (bound ∷ bounds) [] f t = absurd t
Tally-buckets running (bound ∷ bounds) (c ∷ counts) f t =
    rw (Tally-buckets (running + c) bounds counts f t.1, t.0) refl

-- The histogram of the durations, as what it shows: at each bound the number of them up to it, their
-- number and their sum.
pub record IsHistogram (bounds log : List ℕ) (h : Histogram) : Type 0 where
  pub bounded : h.bounds ≡ bounds
  pub tallied : Tally 0 bounds h.counts (λ b. at_most b log)
  pub numbered : h.n ≡ length log
  pub summed : h.total ≡ sum log

pub IsHistogram-buckets :
    {bounds log : List ℕ} {h : Histogram}
    → IsHistogram bounds log h
    → buckets 0 h.bounds h.counts ≡ map (λ b. (b, at_most b log)) bounds
IsHistogram-buckets {bounds} {log} {h} r =
    rw r.bounded (Tally-buckets 0 bounds h.counts (λ b. at_most b log) r.tallied)

pub new_histogram-IsHistogram : (bounds : List ℕ) → IsHistogram bounds [] (new_histogram bounds)
unfolding new_histogram sum
new_histogram-IsHistogram bounds = record {
  bounded = refl;
  tallied = Tally-zeros bounds;
  numbered = refl;
  summed = refl;
}

pub observe-IsHistogram :
    (bounds log : List ℕ) (seconds : ℕ) (h : Histogram)
    → Ascending bounds
    → IsHistogram bounds log h
    → IsHistogram bounds (seconds ∷ log) (observe seconds h)
unfolding observe at_most sum
observe-IsHistogram bounds log seconds h a r = record {
  bounded = r.bounded;
  tallied = rw r.bounded (Tally-bump (λ b. at_most b log) seconds 0 bounds h.counts a r.tallied);
  numbered = omega (arith, r.numbered);
  summed = omega (arith, r.summed);
}
