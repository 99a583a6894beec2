-- ===== src/Api/Masked.antt =====
-- api/config_summary.py: what the summary lets a client know of the tokens.
use bifrost_platform_plugin.Common.{ℕ, ◌≡◌, refl, sym, ap, ◌∙◌, Option, none, some, [], ◌∷◌}
use bifrost_platform_plugin.Common.Text.{Text, strip}
use bifrost_platform_plugin.Common.Result.{Exception}
use bifrost_platform_plugin.Common.Strip.{strip-strip}
use bifrost_platform_plugin.Config.{Environment, Golden, stripped_or, source_of}
use bifrost_platform_plugin.Api.Settings.{masked, mask_token_last4, config_summary}

-- Two tokens of which the client sees the same have the same source.
masked-source : (s t : Text) → masked s ≡ masked t → source_of s ≡ source_of t
masked-source [] [] h = refl
masked-source [] (d ∷ t) h = cc
masked-source (c ∷ s) [] h = cc
masked-source (c ∷ s) (d ∷ t) h = refl

stripped_or-strip : (o : Option Text) → strip (stripped_or o) ≡ stripped_or o
unfolding strip
stripped_or-strip none = refl
stripped_or-strip (some s) = strip-strip s

mask-source :
    (o o' : Option Text)
    → mask_token_last4 (stripped_or o) ≡ mask_token_last4 (stripped_or o')
    → source_of (stripped_or o) ≡ source_of (stripped_or o')
unfolding mask_token_last4
mask-source o o' h =
    masked-source (stripped_or o) (stripped_or o')
      (ap masked (sym (stripped_or-strip o)) ∙ h ∙ ap masked (stripped_or-strip o'))

-- The summary depends on the tokens by their last four characters alone: two environments whose tokens
-- have the same ends, where they are set, have the same summary, at any state of the tables and with
-- any failure to read them.
pub config_summary-masked :
    (env env' : Environment) (issued : Option Text × Option ℕ)
    (unreadable broken : Option Exception) (golden : Golden)
    → mask_token_last4 (stripped_or env.flex_host_token)
      ≡ mask_token_last4 (stripped_or env'.flex_host_token)
    → mask_token_last4 (stripped_or env.flex_secondary_token)
      ≡ mask_token_last4 (stripped_or env'.flex_secondary_token)
    → config_summary env issued unreadable broken golden
      ≡ config_summary env' issued unreadable broken golden
unfolding config_summary
config_summary-masked env env' issued (some e) broken golden host sec = refl
config_summary-masked env env' issued none broken golden host sec =
    rw
      (
        host,
        sec,
        mask-source env.flex_host_token env'.flex_host_token host,
        mask-source env.flex_secondary_token env'.flex_secondary_token sec,
      )
      refl
