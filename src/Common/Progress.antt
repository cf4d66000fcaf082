-- ===== src/Common/Progress.antt =====
-- Calls that may fail, or that may wait for something that never comes.
use mathlib.Core.Path.{◌≡◌, refl}
use mathlib.Core.Option.{Option, none, some}
use tinyrange_ad.Common.Outcome.{Outcome, ok, panic}

-- How far something has come: it has failed, it waits for ever, or it is done.
pub data Progress (A : Type 0) : Type 0 where
  failed waiting : Progress A
  reached : A → Progress A

abbrev pub Step : Type 0 → Type 0
Step A = Outcome (Progress A)

-- The next step, after one that is done.
unfoldable pub and_then : {A B : Type 0} → Step A → (A → Step B) → Step B
and_then panic next = panic
and_then (ok failed) next = ok failed
and_then (ok waiting) next = ok waiting
and_then (ok (reached a)) next = next a

unfoldable pub need : {A : Type 0} → Option A → Progress A
need none = failed
need (some a) = reached a

pub and_then-reached :
    {A B : Type 0} (first : Step A) (next : A → Step B) (b : B)
    → and_then first next ≡ ok (reached b)
    → (a : A) × (first ≡ ok (reached a)) × (next a ≡ ok (reached b))
unfolding and_then
and_then-reached panic next b h = cc
and_then-reached (ok failed) next b h = cc
and_then-reached (ok waiting) next b h = cc
and_then-reached (ok (reached a)) next b h = (a, refl, h)

pub reached_injective : {A : Type 0} {a b : A} → reached a ≡ reached b → a ≡ b
reached_injective h = cc
