-- ===== src/Metrics/Refines.antt =====
-- api/http_metrics.py: HttpMetrics against the log of the requests that it observed.
use bifrost_platform_plugin.Common.{
  ℕ, ◌+◌, ◌≡◌, ◌↔◌, refl, ap, Bool, true, ◌&&◌, not, Option, none, some, List, [], ◌∷◌, map, arith,
  if◌then◌else◌, length, Bool-cases, inl, inr,
}
use bifrost_platform_plugin.Common.Text.{Text, text_eq_iff}
use bifrost_platform_plugin.Common.Dicts.{find, set, count_up, or_default, find-set}
use bifrost_platform_plugin.Metrics.{Histogram, new_histogram, observe, buckets}
use bifrost_platform_plugin.Metrics.Requests.{
  Key, HttpMetrics, same_key, reset, observe_request, time_request, method_label, status_class,
  is_unrecorded, is_untimed, duration_buckets, highr_buckets,
}
use bifrost_platform_plugin.Metrics.Tally.{
  at_most, sum, Ascending, IsHistogram, IsHistogram-buckets, new_histogram-IsHistogram,
  observe-IsHistogram,
}

pub record Request : Type 0 where
  pub handler : Text
  pub method : Text
  pub status_code : ℕ
  pub seconds : ℕ

-- The metrics once the requests of a log, the latest first, were observed.
unfoldable pub observed : List Request → HttpMetrics
unfolding observe_request reset
observed [] = reset
observed (r ∷ log) = observe_request r.handler r.method r.status_code r.seconds (observed log)

-- The labels of a request.
abbrev request_key : Request → Key
request_key r = r.handler ∷ method_label r.method ∷ status_class r.status_code ∷ []

abbrev duration_key : Request → Key
duration_key r = r.handler ∷ method_label r.method ∷ []

-- How many requests of the log are recorded under the labels.
unfoldable pub requests_with : Key → List Request → ℕ
requests_with key [] = 0
requests_with key (r ∷ log) =
    if is_unrecorded r.handler
    then requests_with key log
    else requests_with key log + (if same_key (request_key r) key then 1 else 0)

abbrev is_timed : Request → Bool
is_timed r = not (is_unrecorded r.handler) && not (is_untimed r.handler)

-- The durations of the timed requests of the log that the test takes.
unfoldable pub durations : (Request → Bool) → List Request → List ℕ
durations p [] = []
durations p (r ∷ log) =
    let rest = durations p log in if is_timed r && p r then r.seconds ∷ rest else rest

abbrev pub has_key : Key → Request → Bool
has_key key r = same_key (duration_key r) key

-- What is shown of a histogram is what there is to show of the durations.
pub record Shows (bounds log : List ℕ) (h : Histogram) : Type 0 where
  pub rows : buckets 0 h.bounds h.counts ≡ map (λ b. (b, at_most b log)) bounds
  pub number : h.n ≡ length log
  pub total : h.total ≡ sum log

-- The histogram under a key, which is there exactly if a request was timed.
abbrev pub ShowsAt : (List ℕ → Histogram → Type 0) → List ℕ → Option Histogram → Type 0
ShowsAt Holds log none = log ≡ []
ShowsAt Holds [] (some h) = ⊥
ShowsAt Holds (seconds ∷ log) (some h) = Holds (seconds ∷ log) h

pub record Refines (log : List Request) (m : HttpMetrics) : Type 0 where
  pub requests : (key : Key) → or_default 0 (find same_key key m.requests) ≡ requests_with key log
  pub duration :
      (key : Key)
      → ShowsAt
          (Shows duration_buckets)
          (durations (has_key key) log)
          (find same_key key m.duration)
  pub highr : Shows highr_buckets (durations (λ r. true) log) m.highr

pub same_key_iff : (k j : Key) → (same_key k j ≡ true) ↔ (k ≡ j)
unfolding same_key
same_key_iff [] [] = (λ h. refl, λ h. refl)
same_key_iff [] (t ∷ j) = (λ h. cc, λ h. cc)
same_key_iff (s ∷ k) [] = (λ h. cc, λ h. cc)
same_key_iff (s ∷ k) (t ∷ j) = ground (arith, same_key_iff k j, text_eq_iff s t)

duration_buckets-Ascending : Ascending duration_buckets
unfolding duration_buckets
duration_buckets-Ascending = omega arith

highr_buckets-Ascending : Ascending highr_buckets
unfolding highr_buckets
highr_buckets-Ascending = omega arith

count_up-find :
    (k key : Key) (d : List (Key × ℕ))
    → or_default 0 (find same_key key (count_up same_key k d))
      ≡ or_default 0 (find same_key key d) + (if same_key k key then 1 else 0)
unfolding count_up
count_up-find k key d = ground (
  arith,
  find-set same_key same_key_iff k key (or_default 0 (find same_key k d) + 1) d,
  same_key_iff k key,
)

observed-requests :
    (log : List Request) (key : Key)
    → or_default 0 (find same_key key (observed log).requests) ≡ requests_with key log
unfolding observed observe_request requests_with time_request reset find
observed-requests [] key = refl
observed-requests (r ∷ log) key =
    ground
      (arith, observed-requests log key, count_up-find (request_key r) key (observed log).requests)

module _ (r : Request) (m : HttpMetrics) where
  -- What observing a request does to the histograms.
  observe_request-highr :
      (observe_request r.handler r.method r.status_code r.seconds m).highr
      ≡ (if is_timed r then observe r.seconds m.highr else m.highr)
  unfolding observe_request time_request
  observe_request-highr = ground arith

  observe_request-duration :
      (observe_request r.handler r.method r.status_code r.seconds m).duration ≡ (
        if is_timed r
        then set same_key
            (duration_key r)
            (observe r.seconds (
              or_default
                (new_histogram duration_buckets)
                (find same_key (duration_key r) m.duration)))
            m.duration
        else m.duration)
  unfolding observe_request time_request
  observe_request-duration = ground arith

observed-highr :
    (log : List Request)
    → IsHistogram highr_buckets (durations (λ r. true) log) (observed log).highr
unfolding observed reset durations
observed-highr [] = new_histogram-IsHistogram highr_buckets
observed-highr (r ∷ log) = elim (Bool-cases (is_timed r)) [
  | inl timed ↦
      rw (observe_request-highr r (observed log), timed)
        (observe-IsHistogram highr_buckets _ r.seconds (observed log).highr highr_buckets-Ascending
          (observed-highr log))
  | inr not_timed ↦ rw (observe_request-highr r (observed log), not_timed) (observed-highr log)
]

-- A histogram that is there or not, after one more duration.
ShowsAt-observe :
    (log : List ℕ) (seconds : ℕ) (o : Option Histogram)
    → ShowsAt (IsHistogram duration_buckets) log o
    → IsHistogram duration_buckets
        (seconds ∷ log)
        (observe seconds (or_default (new_histogram duration_buckets) o))
ShowsAt-observe log seconds none s = rw s (
    observe-IsHistogram duration_buckets [] seconds (new_histogram duration_buckets)
      duration_buckets-Ascending (new_histogram-IsHistogram duration_buckets))
ShowsAt-observe [] seconds (some h) s = absurd s
ShowsAt-observe (t ∷ log) seconds (some h) s =
    observe-IsHistogram duration_buckets (t ∷ log) seconds h duration_buckets-Ascending s

-- The histogram under a key, after a duration under that key or another.
ShowsAt-set :
    (key k : Key) (log : List ℕ) (seconds : ℕ) (d : List (Key × Histogram))
    → ShowsAt (IsHistogram duration_buckets) log (find same_key key d)
    → ShowsAt (IsHistogram duration_buckets) (if same_key k key then seconds ∷ log else log) (
        find same_key key (
          set same_key k
            (observe seconds (or_default (new_histogram duration_buckets) (find same_key k d)))
            d))
ShowsAt-set key k log seconds d s =
    let step =
      find-set same_key same_key_iff k key
        (observe seconds (or_default (new_histogram duration_buckets) (find same_key k d))) d in
    elim (Bool-cases (same_key k key)) [
      | inl hit ↦
          let e : k ≡ key = (same_key_iff k key).0 hit in
          rw (step, hit, ap (λ j. find same_key j d) e)
            (ShowsAt-observe log seconds (find same_key key d) s)
      | inr miss ↦ rw (step, miss) s
    ]

observed-duration :
    (log : List Request) (key : Key)
    → ShowsAt
        (IsHistogram duration_buckets)
        (durations (has_key key) log)
        (find same_key key (observed log).duration)
unfolding observed reset durations find
observed-duration [] key = refl
observed-duration (r ∷ log) key = elim (Bool-cases (is_timed r)) [
  | inl timed ↦
      rw (observe_request-duration r (observed log), timed)
        (ShowsAt-set key (duration_key r) _ r.seconds (observed log).duration
          (observed-duration log key))
  | inr not_timed ↦
      rw (observe_request-duration r (observed log), not_timed) (observed-duration log key)
]

IsHistogram-Shows :
    {bounds log : List ℕ} {h : Histogram} → IsHistogram bounds log h → Shows bounds log h
IsHistogram-Shows r = record { rows = IsHistogram-buckets r; number = r.numbered; total = r.summed }

ShowsAt-map :
    (bounds : List ℕ) (log : List ℕ) (o : Option Histogram)
    → ShowsAt (IsHistogram bounds) log o
    → ShowsAt (Shows bounds) log o
ShowsAt-map bounds log none s = s
ShowsAt-map bounds [] (some h) s = s
ShowsAt-map bounds (seconds ∷ log) (some h) s = IsHistogram-Shows s

-- Whatever requests were observed, in whatever order, HttpMetrics shows their log: the counter of each
-- handler, method and status class is the number of recorded requests with it; a handler and method
-- have a histogram exactly if a request of theirs was timed, and each of its rows, as that of the
-- histogram of all requests, has the number of timed requests that took no longer than its bound,
-- with the number of all and the sum of their durations.
pub observed-Refines : (log : List Request) → Refines log (observed log)
observed-Refines log = record {
  requests = observed-requests log;
  duration = λ key. ShowsAt-map _ _ _ (observed-duration log key);
  highr = IsHistogram-Shows (observed-highr log);
}
