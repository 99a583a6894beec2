-- ===== src/Config/Days.antt =====
-- orchestration/config_rw.py: the range days that are read after write_flex_config.
use bifrost_platform_plugin.Common.{
  ℕ, suc, ◌≡◌, refl, sym, ap, ◌∙◌, subst, inl, inr, true, Option, none, some, List, arith,
}
use bifrost_platform_plugin.Common.Int.{ℤ, pos, floor_at}
use bifrost_platform_plugin.Common.Json.{Json, Dict}
use bifrost_platform_plugin.Common.Result.{Exception, ok, >>=-eq-ok, ok-injective}
use bifrost_platform_plugin.Schema.{SettingsRow, read_flex_settings}
use bifrost_platform_plugin.Config.{QueryRow, Golden, get_flex_range_days, or_days}
use bifrost_platform_plugin.Config.Write.{
  transaction, write_flex_config, as_column, or_kept, coalesce, write_days, days_of, settings_after,
  queries_after, given_accounts,
}
use bifrost_platform_plugin.Config.Saved.{Ends, write_flex_config-Ends}

-- The row of the range days, if there is one, holds two positive numbers.
pub data IsSettings : Option SettingsRow → Type 0 where
  no_row : IsSettings none
  a_row : (a b : ℕ) → IsSettings (some (some (pos (suc a)), some (pos (suc b))))

as_column-ok : (n : ℕ) (c : Option ℤ) → as_column n ≡ ok c → c ≡ some (pos n)
as_column-ok n c h = ground arith

at_least_one : (z : ℤ) → floor_at 1 (pos (floor_at 1 z)) ≡ floor_at 1 z
at_least_one z = ground arith

-- A column holds the days that are asked for, or else the old ones.
column-floor :
    (days : Option ℤ) (old : ℕ) (c : Option ℤ)
    → as_column (or_kept (days_of days) (suc old)) ≡ ok c
    → c ≡ some (pos (or_kept (days_of days) (suc old)))
column-floor days old c h = as_column-ok _ c h

new_days :
    (days : Option ℤ) (old : ℕ)
    → floor_at 1 (pos (or_kept (days_of days) (suc old))) ≡ or_kept (days_of days) (suc old)
new_days none old = ground arith
new_days (some z) old = at_least_one z

coalesce-ok :
    (days : Option ℤ) (a : ℕ) (c : Option ℤ)
    → coalesce (days_of days) (some (pos (suc a))) ≡ ok c
    → c ≡ some (pos (or_kept (days_of days) (suc a)))
coalesce-ok none a c h = sym (ok-injective h)
coalesce-ok (some z) a c h = as_column-ok _ c h

read_days :
    (days init : Option ℤ) (a b : ℕ) (c d : Option ℤ)
    → c ≡ some (pos (or_kept (days_of days) (suc a)))
    → d ≡ some (pos (or_kept (days_of init) (suc b)))
    → or_days (read_flex_settings (some (c, d)))
      ≡ (or_kept (days_of days) (suc a), or_kept (days_of init) (suc b))
unfolding read_flex_settings
read_days days init a b c d h k = rw (h, k, new_days days a, new_days init b) refl

-- The days of the old row or the defaults, each replaced by the one that is asked for.
abbrev asked : Option ℤ → Option ℤ → ℕ × ℕ → ℕ × ℕ
asked days init old = (or_kept (days_of days) old.0, or_kept (days_of init) old.1)

write_days-first :
    (days init : Option ℤ) (queries : List QueryRow) (s : Option SettingsRow)
    → write_days (days_of days) (days_of init) (record { settings = none; queries = queries }) none
      ≡ ok s
    → or_days (read_flex_settings s) ≡ asked days init (30, 360)
unfolding get_flex_range_days read_flex_settings
write_days-first days init queries s h =
    let (c, c_ok, h1) = >>=-eq-ok (as_column (or_kept (days_of days) 30)) _ h in
    let (d, d_ok, h2) = >>=-eq-ok (as_column (or_kept (days_of init) 360)) _ h1 in
    subst (λ r. or_days (read_flex_settings r) ≡ asked days init (30, 360)) (ok-injective h2)
      (read_days days init 29 359 c d (column-floor days 29 c c_ok) (column-floor init 359 d d_ok))

write_days-next :
    (days init : Option ℤ) (golden : Golden) (a b : ℕ) (s : Option SettingsRow)
    → write_days
        (days_of days)
        (days_of init)
        golden
        (some (some (pos (suc a)), some (pos (suc b))))
      ≡ ok s
    → or_days (read_flex_settings s) ≡ asked days init (suc a, suc b)
unfolding get_flex_range_days
write_days-next days init golden a b s h =
    let (c, c_ok, h1) = >>=-eq-ok (coalesce (days_of days) (some (pos (suc a)))) _ h in
    let (d, d_ok, h2) = >>=-eq-ok (coalesce (days_of init) (some (pos (suc b)))) _ h1 in
    subst (λ r. or_days (read_flex_settings r) ≡ asked days init (suc a, suc b)) (ok-injective h2)
      (read_days days init a b c d (coalesce-ok days a c c_ok) (coalesce-ok init b d d_ok))

old_days :
    (a b : ℕ)
    → or_days (read_flex_settings (some (some (pos (suc a)), some (pos (suc b))))) ≡ (suc a, suc b)
unfolding read_flex_settings
old_days a b = rw (new_days none a, new_days none b) refl

write_days-ok :
    (days init : Option ℤ) (old : Option SettingsRow) (queries : List QueryRow)
    (s : Option SettingsRow)
    → IsSettings old
    → write_days (days_of days) (days_of init) (record { settings = old; queries = queries }) old
      ≡ ok s
    → or_days (read_flex_settings s) ≡ asked days init (or_days (read_flex_settings old))
unfolding read_flex_settings
write_days-ok days init none queries s no_row h = write_days-first days init queries s h
write_days-ok days init _ queries s (a_row a b) h =
    write_days-next days init
      (record { settings = some (some (pos (suc a)), some (pos (suc b))); queries = queries }) a b s
      h
    ∙ sym (ap (asked days init) (old_days a b))

settings_after-ok :
    (days init : Option ℤ) (golden : Golden) (s : Option SettingsRow)
    → IsSettings golden.settings
    → settings_after (days_of days) (days_of init) golden ≡ ok s
    → or_days (read_flex_settings s)
      ≡ asked days init (or_days (read_flex_settings golden.settings))
unfolding read_flex_settings
settings_after-ok none none golden s is h =
    ap (λ r. or_days (read_flex_settings r)) (sym (ok-injective h))
settings_after-ok (some z) init golden s is h =
    write_days-ok (some z) init golden.settings golden.queries s is h
settings_after-ok none (some z) golden s is h =
    write_days-ok none (some z) golden.settings golden.queries s is h

Ends-days :
    (valid : Option (List Dict)) (days init : Option ℤ) (golden after : Golden)
    → IsSettings golden.settings
    → Ends valid (days_of days) (days_of init) golden (true, after)
    → get_flex_range_days after ≡ asked days init (get_flex_range_days golden)
unfolding transaction get_flex_range_days
Ends-days valid days init golden after is (inr e) = absurd (cc e.0)
Ends-days valid days init golden after is (inl e) =
    let (settings, s1, h1) =
      >>=-eq-ok (settings_after (days_of days) (days_of init) golden) _ e.1 in
    let (rows, s2, h2) = >>=-eq-ok (queries_after valid golden.queries) _ h1 in
    subst
      (λ g. or_days (read_flex_settings g.settings) ≡ asked days init (get_flex_range_days golden))
      (ok-injective h2) (settings_after-ok days init golden settings is s1)

-- If a write landed, then the range days that are read next are the ones that were asked for, at least
-- one day each, and the old ones or the defaults where none were asked for.
pub write_flex_config-range_days :
    (failure : Option Exception) (config : Dict) (accounts : Option (List Json))
    (valid : Option (List Dict)) (days init : Option ℤ) (golden after : Golden)
    → IsSettings golden.settings
    → given_accounts accounts ≡ ok valid
    → write_flex_config failure config accounts days init golden ≡ ok (true, after)
    → get_flex_range_days after ≡ (
      or_kept (days_of days) (get_flex_range_days golden).0,
      or_kept (days_of init) (get_flex_range_days golden).1,
    )
write_flex_config-range_days failure config accounts valid days init golden after is given h =
    Ends-days valid days init golden after is
      (write_flex_config-Ends failure config accounts valid days init golden (true, after) given h)
