-- ===== src/Config/Saved.antt =====
-- orchestration/config_rw.py: what a reader finds after write_flex_config.
use bifrost_platform_plugin.Common.{
  ℕ, suc, ◌≡◌, refl, sym, ap, ◌∙◌, subst, ◌⊎◌, inl, inr, Bool, true, false, Option, none, some,
  List, [], ◌∷◌, if◌then◌else◌, map, arith,
}
use bifrost_platform_plugin.Common.Text.{Text, strip}
use bifrost_platform_plugin.Common.Int.{ℤ}
use bifrost_platform_plugin.Common.Json.{Json, Dict}
use bifrost_platform_plugin.Common.Result.{
  Exception, Result, ok, raise, ◌>>=◌, >>=-eq-ok, ok-injective,
}
use bifrost_platform_plugin.Common.Fields.{text_field, text_field-IsStripped}
use bifrost_platform_plugin.Config.{
  QueryRow, Golden, Environment, ShownRow, some_text, stripped_or, shown_row, place, in_order,
  get_flex_config, postgres_ready,
}
use bifrost_platform_plugin.Config.Write.{
  query_row, query_rows, valid_accounts, transaction, write_flex_config, or_cash, write_valid,
  landed, given_accounts, days_of, settings_after,
}

-- What a reader should see of an account: each text without the blanks at its ends, `none` for an empty
-- one, and a purpose that is cash_transactions by default.
pub record Shows (a : Dict) (r : ShownRow) : Type 0 where
  pub host : text_field a "query_host_id" ≡ ok r.query_host_id
  pub secondary :
      (s : Text) × (text_field a "query_secondary_id" ≡ ok s) × (r.query_secondary_id ≡ some_text s)
  pub label : (s : Text) × (text_field a "query_label" ≡ ok s) × (r.query_label ≡ some_text s)
  pub purpose : (s : Text) × (text_field a "purpose" ≡ ok s) × (r.purpose ≡ some (or_cash s))

-- One row for each account, in the order of the accounts.
abbrev pub ShowAll : List Dict → List ShownRow → Type 0
ShowAll [] [] = Unit
ShowAll [] (r ∷ rows) = ⊥
ShowAll (a ∷ accounts) [] = ⊥
ShowAll (a ∷ accounts) (r ∷ rows) = Shows a r × ShowAll accounts rows

-- The sort orders count up from i.
abbrev From : ℕ → List QueryRow → Type 0
From i [] = Unit
From i (r ∷ rows) = (r.sort_order ≡ i) × From (suc i) rows

shown-strip : (s : Text) → strip s ≡ s → some_text (stripped_or (some_text s)) ≡ some_text s
unfolding strip
shown-strip [] h = refl
shown-strip (c ∷ s) h = ap some_text h

or_cash-strip : (s : Text) → strip s ≡ s → some_text (strip (or_cash s)) ≡ some (or_cash s)
unfolding strip
or_cash-strip [] h = refl
or_cash-strip (c ∷ s) h = ap some_text h

query_row-Shows :
    (i : ℕ) (a : Dict) (r : QueryRow)
    → query_row i a ≡ ok r
    → Shows a (shown_row r) × (r.sort_order ≡ i)
unfolding query_row
query_row-Shows i a r h =
    let (qh, at_host, h1) = >>=-eq-ok (text_field a "query_host_id") _ h in
    let (qs, at_sec, h2) = >>=-eq-ok (text_field a "query_secondary_id") _ h1 in
    let (label, at_label, h3) = >>=-eq-ok (text_field a "query_label") _ h2 in
    let (purp, at_purpose, h4) = >>=-eq-ok (text_field a "purpose") _ h3 in
    subst (λ q. Shows a (shown_row q) × (q.sort_order ≡ i)) (ok-injective h4)
      (
        record {
          host = at_host ∙ ap ok (sym (text_field-IsStripped a "query_host_id" qh at_host));
          secondary =
              (qs, at_sec, shown-strip qs (text_field-IsStripped a "query_secondary_id" qs at_sec));
          label = (
            label,
            at_label,
            shown-strip label (text_field-IsStripped a "query_label" label at_label),
          );
          purpose = (
            purp,
            at_purpose,
            or_cash-strip purp (text_field-IsStripped a "purpose" purp at_purpose),
          );
        },
        refl,
      )

-- The rows of the accounts are in order already, from the place i on.
place-first :
    (r : QueryRow) (rows : List QueryRow) (i : ℕ)
    → r.sort_order ≡ i
    → From (suc i) rows
    → place r rows ≡ r ∷ rows
unfolding place
place-first r [] i at h = refl
place-first r (q ∷ rows) i at h = ground arith

in_order-From : (i : ℕ) (rows : List QueryRow) → From i rows → in_order rows ≡ rows
unfolding in_order
in_order-From i [] h = refl
in_order-From i (r ∷ rows) h =
    ap (place r) (in_order-From (suc i) rows h.1) ∙ place-first r rows i h.0 h.1

query_rows-ShowAll :
    (i : ℕ) (accounts : List Dict) (rows : List QueryRow)
    → query_rows i accounts ≡ ok rows
    → ShowAll accounts (map shown_row rows) × From i rows
unfolding query_rows
query_rows-ShowAll i [] rows h =
    subst (λ rs. ShowAll [] (map shown_row rs) × From i rs) (ok-injective h) (tt, tt)
query_rows-ShowAll i (a ∷ accounts) rows h =
    let (r, first, h1) = >>=-eq-ok (query_row i a) _ h in
    let (rest, others, h2) = >>=-eq-ok (query_rows (suc i) accounts) _ h1 in
    let (shows, at) = query_row-Shows i a r first in
    let (show_rest, from) = query_rows-ShowAll (suc i) accounts rest others in
    subst (λ rs. ShowAll (a ∷ accounts) (map shown_row rs) × From i rs) (ok-injective h2)
      ((shows, show_rest), (at, from))

-- The two ways in which a write ends: its transaction is in the tables, or they are as they were.
abbrev pub Ends : Option (List Dict) → Option ℕ → Option ℕ → Golden → Bool × Golden → Type 0
Ends valid days init golden (wrote, after) =
    ((wrote ≡ true) × (transaction valid days init golden ≡ ok after))
    ⊎ ((wrote ≡ false) × (after ≡ golden))

landed-Ends :
    (failure : Option Exception) (valid : Option (List Dict)) (days init : Option ℕ)
    (golden : Golden) (r : Result Golden)
    → transaction valid days init golden ≡ r
    → Ends valid days init golden (landed failure golden r)
landed-Ends (some e) valid days init golden r h = inr (refl, refl)
landed-Ends none valid days init golden (raise e) h = inr (refl, refl)
landed-Ends none valid days init golden (ok after) h = inl (refl, h)

write_valid-Ends :
    (failure : Option Exception) (valid : Option (List Dict)) (days init : Option ℕ)
    (golden : Golden)
    → Ends valid days init golden (write_valid failure valid days init golden)
unfolding transaction
write_valid-Ends failure (some []) days init golden = inr (refl, refl)
write_valid-Ends failure none none none golden = inl (refl, refl)
write_valid-Ends failure (some (a ∷ accounts)) days init golden =
    landed-Ends failure (some (a ∷ accounts)) days init golden _ refl
write_valid-Ends failure none (some d) init golden =
    landed-Ends failure none (some d) init golden _ refl
write_valid-Ends failure none none (some n) golden =
    landed-Ends failure none none (some n) golden _ refl

after_check-Ends :
    (ready : Bool) (given : Result (Option (List Dict))) (failure : Option Exception)
    (valid : Option (List Dict)) (days init : Option ℕ) (golden : Golden) (end : Bool × Golden)
    → given ≡ ok valid
    → (if ready
        then (given >>= (λ v. ok (write_valid failure v days init golden)))
        else ok (false, golden))
      ≡ ok end
    → Ends valid days init golden end
after_check-Ends false given failure valid days init golden end is_given h =
    subst (Ends valid days init golden) (ok-injective h) (inr (refl, refl))
after_check-Ends true given failure valid days init golden end is_given h =
    subst (Ends valid days init golden)
      (ok-injective
        (ap (λ g. g >>= (λ v. ok (write_valid failure v days init golden))) (sym is_given) ∙ h))
      (write_valid-Ends failure valid days init golden)

pub write_flex_config-Ends :
    (failure : Option Exception) (config : Dict) (accounts : Option (List Json))
    (valid : Option (List Dict)) (days init : Option ℤ) (golden : Golden) (end : Bool × Golden)
    → given_accounts accounts ≡ ok valid
    → write_flex_config failure config accounts days init golden ≡ ok end
    → Ends valid (days_of days) (days_of init) golden end
unfolding write_flex_config
write_flex_config-Ends failure config accounts valid days init golden end given h =
    after_check-Ends (postgres_ready config) (given_accounts accounts) failure valid (days_of days)
      (days_of init) golden end given h

pub Ends-false :
    (valid : Option (List Dict)) (days init : Option ℕ) (golden : Golden) (end : Bool × Golden)
    → Ends valid days init golden end
    → end.0 ≡ false
    → end.1 ≡ golden
Ends-false valid days init golden end (inl e) h = absurd (cc (e.0, h))
Ends-false valid days init golden end (inr e) h = e.1

after_check-false :
    (ready : Bool) (given : Result (Option (List Dict))) (failure : Option Exception)
    (days init : Option ℕ) (golden : Golden) (after : Golden)
    → (if ready
        then (given >>= (λ v. ok (write_valid failure v days init golden)))
        else ok (false, golden))
      ≡ ok (false, after)
    → after ≡ golden
after_check-false false given failure days init golden after h =
    ap (λ e. e.1) (sym (ok-injective h))
after_check-false true (raise e) failure days init golden after h = cc
after_check-false true (ok v) failure days init golden after h =
    Ends-false v days init golden (false, after)
      (subst (Ends v days init golden) (ok-injective h)
        (write_valid-Ends failure v days init golden))
      refl

-- If the write says that it did not land, then both tables are as they were.
pub write_flex_config-atomic :
    (failure : Option Exception) (config : Dict) (accounts : Option (List Json))
    (days init : Option ℤ) (golden after : Golden)
    → write_flex_config failure config accounts days init golden ≡ ok (false, after)
    → after ≡ golden
unfolding write_flex_config
write_flex_config-atomic failure config accounts days init golden after h =
    after_check-false (postgres_ready config) (given_accounts accounts) failure (days_of days)
      (days_of init) golden after h

transaction-queries :
    (valid : List Dict) (days init : Option ℕ) (golden after : Golden)
    → transaction (some valid) days init golden ≡ ok after
    → query_rows 0 valid ≡ ok after.queries
unfolding transaction
transaction-queries valid days init golden after h =
    let (settings, s1, h1) = >>=-eq-ok (settings_after days init golden) _ h in
    let (rows, s2, h2) = >>=-eq-ok (query_rows 0 valid) _ h1 in
    s2 ∙ ap (λ g. ok g.queries) (ok-injective h2)

landed-queries :
    (valid : List Dict) (days init : Option ℕ) (golden after : Golden)
    → Ends (some valid) days init golden (true, after)
    → query_rows 0 valid ≡ ok after.queries
landed-queries valid days init golden after (inl e) =
    transaction-queries valid days init golden after e.1
landed-queries valid days init golden after (inr e) = absurd (cc e.0)

-- If a write with accounts landed, then the configuration that is read next has exactly one row for each
-- account with a host query, in the order of the accounts, and each row shows what its account says.
pub write_flex_config-ShowAll :
    (failure : Option Exception) (config : Dict) (accounts : List Json) (valid : List Dict)
    (days init : Option ℤ) (golden after : Golden) (env : Environment)
    → valid_accounts accounts ≡ ok valid
    → write_flex_config failure config (some accounts) days init golden ≡ ok (true, after)
    → ShowAll valid (get_flex_config env after).2
unfolding get_flex_config
write_flex_config-ShowAll failure config accounts valid days init golden after env is_valid h =
    let stored = landed-queries valid (days_of days) (days_of init) golden after (
      write_flex_config-Ends failure config (some accounts) (some valid) days init golden
        (true, after) (ap (λ r. r >>= (λ v. ok (some v))) is_valid) h) in
    let (shows, from) = query_rows-ShowAll 0 valid after.queries stored in
    subst (λ rows. ShowAll valid (map shown_row rows)) (sym (in_order-From 0 after.queries from))
      shows
