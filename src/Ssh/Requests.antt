-- ===== src/Ssh/Requests.antt =====
-- The name in the extra data of a channel: which data it is read of.
use tinyrange_ad.Common.{
  ℕ, ◌+◌, ◌-◌, ◌*◌, ◌/◌, ◌%◌, ◌^◌, ◌≤◌, ◌<◌, [], ◌∷◌, ◌++◌, true, false, ◌||◌, length, ltb, ◌≡◌,
  ◌⊎◌, inl, inr, refl, ◌∙◌, ap, arith, length-append, take-append,
}
use tinyrange_ad.Common.Outcome.{ok, panic, ◌>>=◌}
use tinyrange_ad.Common.Text.{Bytes}
use tinyrange_ad.Ssh.{big_endian, slice, requested_name}

-- A number of 32 bits, as SSH writes it.
unfoldable pub put_uint32 : ℕ → Bytes
put_uint32 n = n / 16777216 ∷ n / 65536 % 256 ∷ n / 256 % 256 ∷ n % 256 ∷ []

big_endian-put : (n : ℕ) (rest : Bytes) → big_endian (put_uint32 n ++ rest) ≡ ok n
unfolding big_endian put_uint32
big_endian-put n rest =
    let whole : ((n / 16777216 * 256 + n / 65536 % 256) * 256 + n / 256 % 256) * 256 + n % 256 ≡ n =
      omega arith in
    ap ok whole

slice-front :
    (a b c d : ℕ) (name rest : Bytes) (end : ℕ)
    → end ≡ 4 + length name
    → slice (a ∷ b ∷ c ∷ d ∷ (name ++ rest)) 4 end ≡ ok name
unfolding slice
slice-front a b c d name rest end e =
    let long : length (name ++ rest) ≡ length name + length rest = length-append name rest in
    let inside : (ltb end 4 || ltb (length (a ∷ b ∷ c ∷ d ∷ (name ++ rest))) end) ≡ false =
      ground (arith, e, long) in
    let kept : end - 4 ≡ length name = omega (arith, e) in
    rw (inside, kept, take-append name rest) refl

-- A name that is written with its length before it, as SSH writes it, is read back, whatever
-- follows it, if its length and the 4 bytes before it are counted in 32 bits.
requested_name-put :
    (name rest : Bytes)
    → 4 + length name < 2 ^ 32
    → requested_name (put_uint32 (length name) ++ (name ++ rest)) ≡ ok name
unfolding requested_name put_uint32
requested_name-put name rest fits =
    let n = length name in
    let counted : (4 + n) % 2 ^ 32 ≡ 4 + n = omega (arith, fits) in
    ap (λ r. r >>= λ k. slice (put_uint32 n ++ (name ++ rest)) 4 ((4 + k) % 2 ^ 32))
      (big_endian-put n (name ++ rest))
    ∙ slice-front (n / 16777216) (n / 65536 % 256) (n / 256 % 256) (n % 256) name rest
        ((4 + n) % 2 ^ 32) counted

-- The data is shorter than a length, or its length goes beyond it or leaves no 4 in 32 bits.
unfoldable pub Malformed : Bytes → Type 0
Malformed bytes =
    (length bytes < 4)
    ⊎ (n : ℕ) × (big_endian bytes ≡ ok n)
      × (n < 2 ^ 32)
      × ((length bytes < 4 + n) ⊎ (2 ^ 32 ≤ 4 + n))

outside :
    (bytes : Bytes) (n : ℕ)
    → n < 2 ^ 32
    → (length bytes < 4 + n) ⊎ (2 ^ 32 ≤ 4 + n)
    → slice bytes 4 ((4 + n) % 2 ^ 32) ≡ panic
unfolding slice
outside bytes n small (inl long) =
    let beyond : (ltb ((4 + n) % 2 ^ 32) 4 || ltb (length bytes) ((4 + n) % 2 ^ 32)) ≡ true =
      ground (arith, small, long) in
    rw beyond refl
outside bytes n small (inr over) =
    let wraps : (4 + n) % 2 ^ 32 < 4 = omega (arith, small, over) in ground (arith, wraps)

-- Malformed data is a run-time panic.
pub requested_name-panic : (bytes : Bytes) → Malformed bytes → requested_name bytes ≡ panic
unfolding requested_name big_endian Malformed
requested_name-panic [] (inl short) = refl
requested_name-panic (a ∷ []) (inl short) = refl
requested_name-panic (a ∷ b ∷ []) (inl short) = refl
requested_name-panic (a ∷ b ∷ c ∷ []) (inl short) = refl
requested_name-panic (a ∷ b ∷ c ∷ d ∷ s) (inl short) = absurd (omega (arith, short))
requested_name-panic bytes (inr (n, is_n, small, bad)) =
    ap (λ r. r >>= λ k. slice bytes 4 ((4 + k) % 2 ^ 32)) is_n ∙ outside bytes n small bad
