-- ===== src/Retry/Plan.antt =====
-- worker/retry.py: what a plan promises, and which category a job of several errors has.
use bifrost_platform_plugin.Common.{
  ℕ, ◌≤◌, ◌<◌, ◌≡◌, ◌≢◌, refl, Bool, true, Option, List, [], ◌∷◌, arith, ◌↔◌, All, All-map, any,
  map,
}
use bifrost_platform_plugin.Common.Text.{Text}
use bifrost_platform_plugin.Common.Json.{Json, Dict, get}
use bifrost_platform_plugin.Retry.{
  ErrorCategory, not_ready, throttled, config, transient, unknown, RetryPolicy, from_config,
  delay_or, RetryPlan, pending, failed, plan_retry, classify_flex_error, summarize_categories,
  first_seen, same_category, severity_order,
}

-- What a plan promises of a failed attempt.
pub record Promise (c : ErrorCategory) (attempts max_attempts : ℕ) (p : RetryPolicy) (r : RetryPlan)
    : Type 0 where
  pub category_kept : r.category ≡ c
  pub retried : (r.status ≡ pending) ↔ ((c ≢ config) × (attempts < max_attempts))
  pub delay_not_ready : r.status ≡ pending → c ≡ not_ready → r.delay_sec ≡ p.not_ready_delay_sec
  pub delay_throttled : r.status ≡ pending → c ≡ throttled → r.delay_sec ≡ p.throttled_delay_sec
  pub delay_transient : r.status ≡ pending → c ≡ transient → r.delay_sec ≡ p.transient_delay_sec
  pub delay_unknown : r.status ≡ pending → c ≡ unknown → r.delay_sec ≡ p.unknown_delay_sec
  pub cooled : (r.cooldown_all_sec ≢ 0) → (c ≡ throttled) × (r.cooldown_all_sec ≡ r.delay_sec)
  pub throttle_cools :
      r.status ≡ pending → c ≡ throttled → r.cooldown_all_sec ≡ p.throttled_delay_sec
  pub final_waits_not : r.status ≡ failed → (r.delay_sec ≡ 0) × (r.cooldown_all_sec ≡ 0)

-- A plan retries exactly if the error is no configuration error and attempts remain, and keeps the
-- category. A retry waits for the delay that the policy has for its category. The whole queue cools for a
-- throttled error only, and then for the job's own delay. A plan that gives up has no delay and no cooldown.
pub plan_retry-Promise :
    (c : ErrorCategory) (attempts max_attempts : ℕ) (p : RetryPolicy)
    → Promise c attempts max_attempts p (plan_retry c attempts max_attempts p)
unfolding plan_retry
plan_retry-Promise config a m p = record {
  category_kept = refl;
  retried = (λ h. cc, λ h. absurd (h.0 refl));
  delay_not_ready = λ h. cc;
  delay_throttled = λ h. cc;
  delay_transient = λ h. cc;
  delay_unknown = λ h. cc;
  cooled = λ h. absurd (h refl);
  throttle_cools = λ h. cc;
  final_waits_not = λ h. (refl, refl);
}
plan_retry-Promise c a m p = record {
  category_kept = ground arith;
  retried = (λ h. ground arith, λ h. ground arith);
  delay_not_ready = λ h e. ground arith;
  delay_throttled = λ h e. ground arith;
  delay_transient = λ h e. ground arith;
  delay_unknown = λ h e. ground arith;
  cooled = λ h. ground arith;
  throttle_cools = λ h e. ground arith;
  final_waits_not = λ h. ground arith;
}

delay_or-floor : (n : ℕ) (o : Option Json) → 30 ≤ n → 30 ≤ delay_or n o
unfolding delay_or
delay_or-floor n o h = ground arith

-- Whatever the configuration says, a retried attempt waits for at least thirty seconds.
pub plan_retry-from_config_floor :
    (raw : Dict) (c : ErrorCategory) (attempts max_attempts : ℕ)
    → (plan_retry c attempts max_attempts (from_config raw)).status ≡ pending
    → 30 ≤ (plan_retry c attempts max_attempts (from_config raw)).delay_sec
unfolding plan_retry from_config
plan_retry-from_config_floor raw config a m h = cc
plan_retry-from_config_floor raw c a m h = ground (
  arith,
  delay_or-floor 1800 (get raw "not_ready_delay_sec"),
  delay_or-floor 1800 (get raw "throttled_delay_sec"),
  delay_or-floor 120 (get raw "transient_delay_sec"),
  delay_or-floor 300 (get raw "unknown_delay_sec"),
)

-- How bad a category is, the worst first.
abbrev pub rank : ErrorCategory → ℕ
rank throttled = 0
rank config = 1
rank not_ready = 2
rank transient = 3
rank unknown = 4

worst_of : (ErrorCategory → Bool) → ErrorCategory
unfolding first_seen
worst_of seen = first_seen severity_order seen

worst_of-rank :
    (seen : ErrorCategory → Bool) (c : ErrorCategory)
    → seen c ≡ true
    → rank (worst_of seen) ≤ rank c
unfolding worst_of
worst_of-rank seen throttled h = ground arith
worst_of-rank seen c h = ground arith

worst_of-seen :
    (seen : ErrorCategory → Bool) (c : ErrorCategory) → seen c ≡ true → seen (worst_of seen) ≡ true
unfolding worst_of
worst_of-seen seen throttled h = ground arith
worst_of-seen seen c h = ground arith

abbrev pub occurs : List Text → ErrorCategory → Bool
occurs messages cat = any (same_category cat) (map classify_flex_error messages)

same_category_self : (c : ErrorCategory) → same_category c c ≡ true
same_category_self c = ground arith

occurs_later :
    (m : Text) (ms : List Text) (c : ErrorCategory) → occurs ms c ≡ true → occurs (m ∷ ms) c ≡ true
occurs_later m ms c h = ground arith

occurs_each :
    (messages : List Text) → All (λ m. occurs messages (classify_flex_error m) ≡ true) messages
occurs_each [] = tt
occurs_each (m ∷ ms) = (
  rw (same_category_self (classify_flex_error m)) refl,
  All-map (λ x. occurs_later m ms (classify_flex_error x)) ms (occurs_each ms),
)

-- The category of a job of several errors is at least as bad as that of each error, and it is the
-- category of one of them.
pub summarize_categories-worst :
    (m : Text) (ms : List Text)
    → All (λ x. rank (summarize_categories (m ∷ ms)) ≤ rank (classify_flex_error x)) (m ∷ ms)
      × (occurs (m ∷ ms) (summarize_categories (m ∷ ms)) ≡ true)
unfolding summarize_categories worst_of
summarize_categories-worst m ms =
    let seen = occurs (m ∷ ms) in
    let each = occurs_each (m ∷ ms) in
    (
      All-map (λ x. worst_of-rank seen (classify_flex_error x)) (m ∷ ms) each,
      worst_of-seen seen (classify_flex_error m) each.0,
    )
