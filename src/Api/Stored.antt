-- ===== src/Api/Stored.antt =====
-- api/config_summary.py: how a call of the write endpoint ends, for the tables and for the next reader.
use bifrost_platform_plugin.Common.{
  ℕ, ◌≡◌, refl, sym, ap, subst, inl, inr, Bool, true, false, not, Option, none, some, List, [], ◌∷◌,
  String, map, Bool-cases, if-both,
}
use bifrost_platform_plugin.Common.Text.{Text, strip}
use bifrost_platform_plugin.Common.Int.{ℤ}
use bifrost_platform_plugin.Common.Json.{
  Json, null, bool, num, str, arr, obj, Dict, get, is_dict_key,
}
use bifrost_platform_plugin.Common.Result.{Exception, Result, ok, raise, >>=-eq-ok, ok-injective}
use bifrost_platform_plugin.Common.Fields.{text_field}
use bifrost_platform_plugin.Common.Strip.{strip-strip}
use bifrost_platform_plugin.Common.Dicts.{or_default}
use bifrost_platform_plugin.Config.{Golden, Environment, get_flex_config, get_flex_range_days}
use bifrost_platform_plugin.Config.Write.{
  valid_accounts, write_flex_config, given_accounts, days_of, or_kept, transaction, settings_after,
}
use bifrost_platform_plugin.Config.Saved.{
  ShowAll, Ends, write_flex_config-Ends, write_flex_config-ShowAll, write_flex_config-atomic,
}
use bifrost_platform_plugin.Config.Days.{IsSettings, write_flex_config-range_days}
use bifrost_platform_plugin.Api.{HttpReply, answer, http_exception, server_error}
use bifrost_platform_plugin.Api.Settings.{
  Written, str_or, str_field, normal_account, with_host, normal_accounts, iterate,
  normalize_flex_accounts, optional_days, names_any, token_fields, write_fields, write_reply,
  body_or_empty, as_values, write_days_and, with_accounts, write_flex_config_endpoint,
}

module _ (print : Json → Text) where
  str_field-IsStripped :
      (a : Dict) (k : String) (default : Text)
      → strip (str_field print a k default) ≡ str_field print a k default
  unfolding str_field
  str_field-IsStripped a k default = strip-strip (str_or print default (get a k))

  with_host-valid :
      (a : Dict) (qh : Text) (rest : List Dict)
      → strip qh ≡ qh
      → valid_accounts (map obj rest) ≡ ok rest
      → valid_accounts (map obj (with_host print a qh rest)) ≡ ok (with_host print a qh rest)
  unfolding valid_accounts normal_account text_field get
  with_host-valid a [] rest e h = h
  with_host-valid a (c ∷ qh) rest e h = rw (e, h) refl

  accounts_of-valid :
      (raw : List Json)
      → valid_accounts (map obj (normal_accounts print raw)) ≡ ok (normal_accounts print raw)
  unfolding normal_accounts valid_accounts
  accounts_of-valid [] = refl
  accounts_of-valid (obj a ∷ raw) =
      with_host-valid a (str_field print a "query_host_id" []) (normal_accounts print raw)
        (str_field-IsStripped a "query_host_id" []) (accounts_of-valid raw)
  accounts_of-valid (null ∷ raw) = accounts_of-valid raw
  accounts_of-valid (bool b ∷ raw) = accounts_of-valid raw
  accounts_of-valid (num n ∷ raw) = accounts_of-valid raw
  accounts_of-valid (str s ∷ raw) = accounts_of-valid raw
  accounts_of-valid (arr vs ∷ raw) = accounts_of-valid raw

  -- What the endpoint makes of the accounts is what write_flex_config stores.
  pub normalize_flex_accounts-valid :
      (raw : Option Json) (accounts : List Dict)
      → normalize_flex_accounts print raw ≡ ok accounts
      → valid_accounts (map obj accounts) ≡ ok accounts
  unfolding normalize_flex_accounts
  normalize_flex_accounts-valid raw accounts h =
      let (values, at, h1) = >>=-eq-ok (iterate raw) _ h in
      subst (λ l. valid_accounts (map obj l) ≡ ok l) (ok-injective h1) (accounts_of-valid values)

module _ (env : Environment) (golden : Golden) where
  -- What a reader finds of the accounts.
  abbrev Shown : Option (List Dict) → Golden → Type 0
  Shown none after = after.queries ≡ golden.queries
  Shown (some accounts) after = ShowAll accounts (get_flex_config env after).2

  -- The tables after an answer, which stored what it says; any other reply left them as they were.
  abbrev pub Stored : Option Dict → HttpReply Written × Golden → Type 0
  Stored body (answer w, after) =
      (names_any token_fields (body_or_empty body) ≡ false)
      × Shown w.accounts after
      × (get_flex_range_days after ≡ (
        or_kept (days_of w.default_days) (get_flex_range_days golden).0,
        or_kept (days_of w.init_days) (get_flex_range_days golden).1,
      ))
  Stored body (http_exception code detail, after) = after ≡ golden
  Stored body (server_error e, after) = after ≡ golden

queries-kept :
    (days init : Option ℕ) (golden after : Golden)
    → Ends none days init golden (true, after)
    → after.queries ≡ golden.queries
unfolding transaction
queries-kept days init golden after (inl e) =
    let (settings, s1, h1) = >>=-eq-ok (settings_after days init golden) _ e.1 in
    sym (ap (λ g. g.queries) (ok-injective h1))
queries-kept days init golden after (inr e) = absurd (cc e.0)

given-valid :
    (accounts : Option (List Dict))
    → ((l : List Dict) → accounts ≡ some l → valid_accounts (map obj l) ≡ ok l)
    → given_accounts (as_values accounts) ≡ ok accounts
given-valid none valid = refl
given-valid (some accounts) valid = rw (valid accounts refl) refl

module _ (env : Environment) (golden : Golden) (failure : Option Exception) (config : Dict)
    (body : Option Dict) (no_token : names_any token_fields (body_or_empty body) ≡ false)
    (settings : IsSettings golden.settings) where
  stored-accounts :
      (accounts : Option (List Dict)) (days init : Option ℤ) (after : Golden)
      → ((l : List Dict) → accounts ≡ some l → valid_accounts (map obj l) ≡ ok l)
      → write_flex_config failure config (as_values accounts) days init golden ≡ ok (true, after)
      → Shown env golden accounts after
  stored-accounts none days init after valid h =
      queries-kept (days_of days) (days_of init) golden after
        (write_flex_config-Ends failure config none none days init golden (true, after) refl h)
  stored-accounts (some accounts) days init after valid h =
      write_flex_config-ShowAll failure config (map obj accounts) accounts days init golden after
        env (valid accounts refl) h

  after_write-Stored :
      (w : Written) (r : Result (Bool × Golden))
      → ((l : List Dict) → w.accounts ≡ some l → valid_accounts (map obj l) ≡ ok l)
      → write_flex_config failure config (as_values w.accounts) w.default_days w.init_days golden
        ≡ r
      → Stored env golden body (write_reply w golden r)
  after_write-Stored w (raise e) valid h = refl
  after_write-Stored w (ok (false, after)) valid h =
      write_flex_config-atomic failure config (as_values w.accounts) w.default_days w.init_days
        golden after h
  after_write-Stored w (ok (true, after)) valid h = (
    no_token,
    stored-accounts w.accounts w.default_days w.init_days after valid h,
    write_flex_config-range_days failure config (as_values w.accounts) w.accounts w.default_days
        w.init_days golden after settings (given-valid w.accounts valid) h,
  )

  write_days_and-Stored :
      (print : Json → Text) (payload : Dict) (accounts : Option (List Dict))
      → ((l : List Dict) → accounts ≡ some l → valid_accounts (map obj l) ≡ ok l)
      → Stored env golden body (write_days_and print failure config payload golden accounts)
  unfolding write_days_and
  write_days_and-Stored print payload accounts valid =
      after_write-Stored
        (record {
          accounts = accounts;
          default_days = optional_days (get payload "flex_default_range_days");
          init_days = optional_days (get payload "flex_init_range_days");
        })
        _ valid refl

  with_accounts-Stored :
      (print : Json → Text) (payload : Dict) (raw : Option Json) (r : Result (List Dict))
      → normalize_flex_accounts print raw ≡ r
      → Stored env golden body (with_accounts print failure config payload golden r)
  unfolding with_accounts
  with_accounts-Stored print payload raw (raise e) h = refl
  with_accounts-Stored print payload raw (ok []) h = refl
  with_accounts-Stored print payload raw (ok (a ∷ accounts)) h =
      write_days_and-Stored print payload (some (a ∷ accounts)) (λ l e.
        subst (λ m. valid_accounts (map obj m) ≡ ok m) (ap (or_default l) e)
          (normalize_flex_accounts-valid print raw (a ∷ accounts) h))

-- However a call of the write endpoint ends, for any body and any failure of the database. Where it
-- answers, the body named no token field, the configuration that is read next has one row for each
-- account that it answers with, in their order, showing what the account says (or the rows of before,
-- where it answers with none), and the range days that are read next are those it answers with, at
-- least one day, and the former ones where it answers with none. Where it does not answer, both tables
-- are as they were. The row of the range days, if there is one, is taken to hold two positive numbers.
pub write_flex_config_endpoint-Stored :
    (env : Environment) (golden : Golden) (print : Json → Text) (failure : Option Exception)
    (config : Dict) (body : Option Dict)
    → IsSettings golden.settings
    → Stored env golden body (write_flex_config_endpoint print failure config body golden)
unfolding write_flex_config_endpoint
write_flex_config_endpoint-Stored env golden print failure config body settings =
    elim (Bool-cases (names_any token_fields (body_or_empty body))) [
      | inl named ↦ rw named refl
      | inr free ↦ rw free (
          if-both (Stored env golden body) (not (names_any write_fields (body_or_empty body))) refl
            (if-both (Stored env golden body) (is_dict_key (body_or_empty body) "accounts")
              (with_accounts-Stored env golden failure config body free settings print
                (body_or_empty body) (get (body_or_empty body) "accounts") _ refl)
              (write_days_and-Stored env golden failure config body free settings print
                (body_or_empty body) none (λ l e. cc))))
    ]
