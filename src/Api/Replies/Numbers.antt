-- ===== src/Api/Replies/Numbers.antt =====
-- The scoreboard of a tick, for every number that a request may name.
use tinyrange_ad.Common.{
  ℕ, zero, suc, List, [], ◌∷◌, Option, none, some, ℤ, pos, length, get_elem?, ◌≡◌, ◌<◌, ◌≤◌, refl,
  arith, ◌⊎◌, inl, inr, true, false,
}
use tinyrange_ad.Common.Int.{negsuc, ltb_ℤ, ◌-ℤ◌, Int64, ◌≤ℤ◌}
use tinyrange_ad.Common.Text.{codes}
use tinyrange_ad.Common.Decimal.{itoa, atoi-itoa}
use tinyrange_ad.Common.Outcome.{ok, panic}
use tinyrange_ad.Api.Replies.{Reply, body, http_error, scoreboard_of_tick, tick_reply, nth_tick}

-- The state at a position of the list, and the error where there is none.
unfoldable pub found : {A : Type 0} → Option A → Reply A
found none = http_error 404 (codes "tick not found")
found (some t) = body t

get_elem?_cases :
    {A : Type 0} (l : List A) (n : ℕ)
    → (get_elem? l n ≡ none) × (length l ≤ n) ⊎ (a : A) × (get_elem? l n ≡ some a) × (n < length l)
get_elem?_cases [] n = inl (refl, omega arith)
get_elem?_cases (x ∷ l) zero = inr (x, refl, omega arith)
get_elem?_cases (x ∷ l) (suc n) = elim (get_elem?_cases l n) [
  | inl (e, h) ↦ inl (e, omega (arith, h))
  | inr (a, e, h) ↦ inr (a, e, omega (arith, h))
]

over : (l n : ℕ) → l ≤ n → ltb_ℤ (pos l) (pos (suc n)) ≡ true
over l n h = ground arith

not_over : (l n : ℕ) → n < l → ltb_ℤ (pos l) (pos (suc n)) ≡ false
not_over l n h = ground arith

before : (n : ℕ) → pos (suc n) -ℤ pos 1 ≡ pos n
unfolding ◌-ℤ◌
before n = ground arith

-- For the text of a number from 1 on the answer is the state of that tick, counted from 1, and the
-- error 404 if the tick is not over.
scoreboard_of_tick-found :
    {A : Type 0} (ticks : List A) (n : ℕ)
    → Int64 (pos (suc n))
    → scoreboard_of_tick ticks (itoa (pos (suc n))) ≡ ok (found (get_elem? ticks n))
unfolding scoreboard_of_tick tick_reply nth_tick found
scoreboard_of_tick-found ticks n fits = elim (get_elem?_cases ticks n) [
  | inl (e, h) ↦ rw (atoi-itoa (pos (suc n)) fits, e, over (length ticks) n h) refl
  | inr (t, e, h) ↦
      rw (atoi-itoa (pos (suc n)) fits, before n, not_over (length ticks) n h, nth_tick, e) refl
]

-- For the text of a number below 1 the handler panics.
pub scoreboard_of_tick-panic :
    {A : Type 0} (ticks : List A) (z : ℤ)
    → Int64 z
    → z ≤ℤ pos 0
    → scoreboard_of_tick ticks (itoa z) ≡ panic
unfolding scoreboard_of_tick tick_reply nth_tick ◌-ℤ◌
scoreboard_of_tick-panic ticks (pos zero) fits h = rw (atoi-itoa (pos zero) fits) (ground arith)
scoreboard_of_tick-panic ticks (pos (suc n)) fits h = absurd (omega arith)
scoreboard_of_tick-panic ticks (negsuc n) fits h = rw (atoi-itoa (negsuc n) fits) (ground arith)
