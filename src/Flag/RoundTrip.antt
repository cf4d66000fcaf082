-- ===== src/Flag/RoundTrip.antt =====
-- What `Generate` makes, `Verify` accepts.
use tinyrange_ad.Common.{[], ◌∷◌, ◌++◌, true, some, ◌≡◌, append_assoc, arith, ℤ}
use tinyrange_ad.Common.Int.{Int64}
use tinyrange_ad.Common.Text.{
  Bytes, Lacks, has_prefix-append, has_suffix-append, trim_prefix-append, trim_suffix-append, split,
  has_suffix, split-append, split-Lacks,
}
use tinyrange_ad.Common.Decimal.{itoa, atoi-itoa, itoa-Lacks}
use tinyrange_ad.Common.Base64
use tinyrange_ad.Flag.{
  Crypto, FlagGenerator, flag_data, signer_sign, signer_public, verify_text, generate,
  verify_tokens, verify,
}

number_Lacks : (z : ℤ) → Lacks b'.' (itoa z)
number_Lacks z = itoa-Lacks z b'.' (omega arith) (omega arith)

has_suffix_middle : (p b s : Bytes) → has_suffix (p ++ (b ++ s)) s ≡ true
has_suffix_middle p b s = rw (← append_assoc p b s) (has_suffix-append (p ++ b) s)

module _ (c : Crypto) where
  sign-Lacks : (k : c.PrivateKey) (m : Bytes) → Lacks b'.' (signer_sign c k m)
  unfolding signer_sign
  sign-Lacks k m = Base64.encode-Lacks _ (c.sign-Byte k m)

  -- A signature verifies under its signer's public text.
  verify_text-sign :
      (k : c.PrivateKey) (m : Bytes)
      → verify_text c (signer_public c k) m (signer_sign c k m) ≡ true
  unfolding verify_text signer_public signer_sign
  verify_text-sign k m =
      rw
        (
          verify_text,
          Base64.decode-encode _ (c.sign-Byte k m),
          Base64.decode-encode _ (c.public-Byte k),
        )
        (c.verify-sign k m)

  tokens :
      (tick team service : ℤ) (sig : Bytes)
      → Lacks b'.' sig
      → split (flag_data tick team service ++ (b'.' ∷ sig)) b'.'
        ≡ itoa tick ∷ itoa team ∷ itoa service ∷ sig ∷ []
  unfolding flag_data
  tokens tick team service sig h =
      rw (append_assoc, append_assoc)
        (rw (
          split-append (itoa tick) _ b'.' (number_Lacks tick),
          split-append (itoa team) _ b'.' (number_Lacks team),
          split-append (itoa service) _ b'.' (number_Lacks service),
          split-Lacks sig b'.' h,
        ))

  verify_tokens-generate :
      (k : c.PrivateKey) (tick team service : ℤ)
      → Int64 tick
      → Int64 team
      → Int64 service
      → verify_tokens c (signer_public c k) (
          itoa tick ∷ itoa team ∷ itoa service ∷ signer_sign c k (flag_data tick team service) ∷ [])
        ≡ some (tick, team, service)
  unfolding verify_tokens
  verify_tokens-generate k tick team service ht hm hs =
      rw (atoi-itoa tick ht, atoi-itoa team hm, atoi-itoa service hs, verify_text-sign k _)

  -- Every flag that the game generates for ids that an int holds is verified under the game's key,
  -- for any prefix and suffix, and gives its three ids back.
  pub verify-generate :
      (gen : FlagGenerator) (k : c.PrivateKey) (tick team service : ℤ)
      → Int64 tick
      → Int64 team
      → Int64 service
      → verify c gen (signer_public c k) (generate c gen tick team service k)
        ≡ some (tick, team, service)
  unfolding verify generate
  verify-generate gen k tick team service ht hm hs =
      let text = flag_data tick team service in
      let sig = signer_sign c k text in
      let body = text ++ (b'.' ∷ sig) in
      rw
        (
          has_prefix-append gen.prefix (body ++ gen.suffix),
          has_suffix_middle gen.prefix body gen.suffix,
          trim_prefix-append gen.prefix (body ++ gen.suffix),
          trim_suffix-append body gen.suffix,
          tokens tick team service sig (sign-Lacks k text),
        )
        (verify_tokens-generate k tick team service ht hm hs)
