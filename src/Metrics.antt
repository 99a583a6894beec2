-- ===== src/Metrics.antt =====
-- api/http_metrics.py: the request counters and latency histograms of the HTTP service. A duration
-- is a whole number of nanoseconds, and a sum of durations is not rounded; how Python prints a float
-- of seconds is an argument.
pub mod Requests
pub mod Tally
pub mod Refines
pub mod Served
pub mod Escape
mod Tests
use bifrost_platform_plugin.Common.{
  ℕ, String, zero, suc, ◌+◌, ◌*◌, Bool, true, false, List, [], ◌∷◌, ◌++◌, map, leb, ◌==◌,
  if◌then◌else◌,
}
use bifrost_platform_plugin.Common.Text.{Text, codes, decimal}

-- v.replace(c, by) for one character c.
unfoldable pub replace_char : ℕ → Text → Text → Text
replace_char c by [] = []
replace_char c by (d ∷ v) =
    let rest = replace_char c by v in if d == c then by ++ rest else d ∷ rest

unfoldable pub escape : Text → Text
unfolding replace_char
escape v =
    replace_char 10 (codes " ") (replace_char 34 (92 ∷ 34 ∷ []) (replace_char 92 (92 ∷ 92 ∷ []) v))

-- A label with its value.
abbrev pub Label : Type 0
Label = String × Text

-- f'{k}="{_escape(v)}"'
unfoldable pub label_text : Label → Text
unfolding escape
label_text l = codes l.0 ++ (b'=' ∷ (34 ∷ (escape l.1 ++ (34 ∷ []))))

-- ",".join(…)
unfoldable pub labels : List Label → Text
unfolding label_text
labels [] = []
labels (l ∷ []) = label_text l
labels (l ∷ k ∷ pairs) = label_text l ++ (b',' ∷ labels (k ∷ pairs))

pub record Histogram : Type 0 where
  pub bounds : List ℕ
  pub counts : List ℕ
  pub n : ℕ
  pub total : ℕ

-- [0] * len(bounds)
abbrev pub zero_counts : List ℕ → List ℕ
zero_counts bounds = map (λ _. 0) bounds

unfoldable pub new_histogram : List ℕ → Histogram
new_histogram bounds = record { bounds = bounds; counts = zero_counts bounds; n = 0; total = 0 }

-- The count of the first bound that the duration does not exceed goes up. `counts` is as long as
-- `bounds`.
unfoldable pub bump : ℕ → List ℕ → List ℕ → List ℕ
bump seconds [] counts = counts
bump seconds (bound ∷ bounds) [] = []
bump seconds (bound ∷ bounds) (c ∷ counts) =
    let rest = bump seconds bounds counts in
    if leb seconds bound then (c + 1) ∷ counts else c ∷ rest

unfoldable pub observe : ℕ → Histogram → Histogram
unfolding bump
observe seconds h = record h {
  counts = bump seconds h.bounds h.counts;
  total = h.total + seconds;
  n = h.n + 1;
}

-- Each bound with the running sum of the counts up to it: the loop over zip(bounds, counts).
unfoldable pub buckets : ℕ → List ℕ → List ℕ → List (ℕ × ℕ)
buckets running [] counts = []
buckets running (bound ∷ bounds) [] = []
buckets running (bound ∷ bounds) (c ∷ counts) =
    (bound, running + c) ∷ buckets (running + c) bounds counts

-- `{…}` round the labels, where there are any.
abbrev braces : List Label → Text
braces [] = []
braces (l ∷ pairs) = b'{' ∷ (labels (l ∷ pairs) ++ (b'}' ∷ []))

module _ (float_text : ℕ → Text) where
  bucket_line : Text → List Label → Text → ℕ → Text
  unfolding labels
  bucket_line name pairs le count =
      name
      ++ (codes "_bucket{"
          ++ (labels (pairs ++ (("le", le) ∷ [])) ++ (codes "} " ++ decimal count)))

  unfoldable pub render_histogram : Text → List Label → Histogram → List Text
  unfolding bucket_line buckets labels
  render_histogram name pairs h =
      map (λ (row : ℕ × ℕ). bucket_line name pairs (float_text row.0) row.1)
        (buckets 0 h.bounds h.counts)
      ++ (bucket_line name pairs (codes "+Inf") h.n
          ∷ (name ++ (codes "_sum" ++ (braces pairs ++ (codes " " ++ float_text h.total))))
          ∷ (name ++ (codes "_count" ++ (braces pairs ++ (codes " " ++ decimal h.n))))
          ∷ [])
