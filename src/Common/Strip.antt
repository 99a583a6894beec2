-- ===== src/Common/Strip.antt =====
-- str.strip() on a text that is stripped, or that begins with another character.
use Prim.Native.Nat.{ℕ}
use mathlib.Core.Path.{◌≡◌, refl, ap, ◌∙◌}
use mathlib.Core.Bool.{false}
use mathlib.Core.List.{[], ◌∷◌, ◌++◌, reverse, reverse-cons, reverse-append, reverse-reverse}
use mathlib.Core.Logic.{inl, inr}
use native.Mathlib.Omega.{arith}
use bifrost_platform_plugin.Common.Tests.{Bool-cases}
use bifrost_platform_plugin.Common.Text.{Text, is_space, lstrip, strip}

lstrip-snoc :
    (c : ℕ) (s : Text) → is_space c ≡ false → lstrip (s ++ (c ∷ [])) ≡ lstrip s ++ (c ∷ [])
unfolding lstrip
lstrip-snoc c [] h = ground arith
lstrip-snoc c (d ∷ s) h = ground (arith, lstrip-snoc c s h)

lstrip-lstrip : (s : Text) → lstrip (lstrip s) ≡ lstrip s
unfolding lstrip
lstrip-lstrip [] = refl
lstrip-lstrip (c ∷ s) = ground (arith, lstrip-lstrip s)

-- s.rstrip()
abbrev pub rstrip : Text → Text
rstrip s = reverse (lstrip (reverse s))

rstrip-cons : (c : ℕ) (s : Text) → is_space c ≡ false → rstrip (c ∷ s) ≡ c ∷ rstrip s
rstrip-cons c s h =
    ap (λ t. reverse (lstrip t)) (reverse-cons c s)
    ∙ ap reverse (lstrip-snoc c (reverse s) h)
    ∙ reverse-append (lstrip (reverse s)) (c ∷ [])

rstrip-rstrip : (s : Text) → rstrip (rstrip s) ≡ rstrip s
rstrip-rstrip s =
    ap (λ t. reverse (lstrip t)) (reverse-reverse (lstrip (reverse s)))
    ∙ ap reverse (lstrip-lstrip (reverse s))

lstrip-rstrip-lstrip : (s : Text) → lstrip (rstrip (lstrip s)) ≡ rstrip (lstrip s)
unfolding lstrip
lstrip-rstrip-lstrip [] = refl
lstrip-rstrip-lstrip (c ∷ s) = elim (Bool-cases (is_space c)) [
  | inl space ↦ rw space (lstrip-rstrip-lstrip s)
  | inr dark ↦ rw dark (rw (rstrip-cons c s dark) (rw dark refl))
]

pub strip-strip : (s : Text) → strip (strip s) ≡ strip s
unfolding strip
strip-strip s = ap rstrip (lstrip-rstrip-lstrip s) ∙ rstrip-rstrip (lstrip s)

-- A text that begins with another character keeps it.
pub strip-cons : (c : ℕ) (s : Text) → is_space c ≡ false → strip (c ∷ s) ≡ c ∷ rstrip s
unfolding strip lstrip
strip-cons c s h = rw h (rstrip-cons c s h)
