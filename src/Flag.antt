-- ===== src/Flag.antt =====
-- Signed flags: cmd/ad/crypto.go.
pub mod RoundTrip
pub mod Sound
use tinyrange_ad.Common.{
  ℕ, List, [], ◌∷◌, ◌++◌, Bool, true, false, ◌&&◌, ◌||◌, not, Option, none, some, ◌≡◌, refl, ◌==◌,
  if◌then◌else◌, ◌>>=◌, length, take, ℤ, pos, All,
}
use tinyrange_ad.Common.Text.{Bytes, codes, has_prefix, has_suffix, trim_prefix, trim_suffix, split}
use tinyrange_ad.Common.Decimal.{itoa, atoi}
use tinyrange_ad.Common.Base64
use tinyrange_ad.Common.Base64.{Byte}

-- Ed25519 and SHA-256 are functions that the program only calls. The laws are the documented ones:
-- the results are bytes, and a signature verifies under the public half of the key that made it.
pub record Crypto : Type 1 where
  pub PrivateKey : Type 0
  pub sign : PrivateKey → Bytes → Bytes
  pub public : PrivateKey → Bytes
  pub verify : Bytes → Bytes → Bytes → Bool
  pub sha256 : Bytes → Bytes
  pub sign-Byte : (k : PrivateKey) (m : Bytes) → All Byte (sign k m)
  pub public-Byte : (k : PrivateKey) → All Byte (public k)
  pub verify-sign : (k : PrivateKey) (m : Bytes) → verify (public k) m (sign k m) ≡ true

pub record FlagGenerator : Type 0 where
  pub prefix : Bytes
  pub suffix : Bytes

unfoldable pub new_flag_generator : Bytes → Bytes → FlagGenerator
new_flag_generator prefix suffix = record { prefix = prefix; suffix = suffix }

-- `"%d.%d.%d"`.
unfoldable pub flag_data : ℤ → ℤ → ℤ → Bytes
flag_data tick_id team_id service_id =
    itoa tick_id ++ (b'.' ∷ (itoa team_id ++ (b'.' ∷ itoa service_id)))

module _ (c : Crypto) where
  -- `Signer.Sign`.
  unfoldable pub signer_sign : c.PrivateKey → Bytes → Bytes
  signer_sign k m = Base64.encode (c.sign k m)

  -- `Signer.Public`.
  unfoldable pub signer_public : c.PrivateKey → Bytes
  signer_public k = Base64.encode (c.public k)

  -- The package's `Verify`: a text that is not base64 verifies nothing.
  unfoldable pub verify_text : Bytes → Bytes → Bytes → Bool
  verify_text pub_key m sig = elim (Base64.decode sig) [
    | none ↦ false
    | some signature ↦ elim (Base64.decode pub_key) [
      | none ↦ false
      | some key ↦ c.verify key m signature
    ]
  ]

  -- `FlagGenerator.Generate`.
  unfoldable pub generate : FlagGenerator → ℤ → ℤ → ℤ → c.PrivateKey → Bytes
  generate gen tick_id team_id service_id key =
      let text = flag_data tick_id team_id service_id in
      gen.prefix ++ ((text ++ (b'.' ∷ signer_sign key text)) ++ gen.suffix)

  unfoldable pub get_flag_id : Bytes → Bytes
  get_flag_id flag = take 12 (Base64.hex (c.sha256 flag))

  -- The signature is over the three numbers printed again.
  check_signature : Bytes → Bytes → ℤ → ℤ → ℤ → Option (ℤ × ℤ × ℤ)
  check_signature public sig tick_id team_id service_id =
      if verify_text public (flag_data tick_id team_id service_id) sig
      then some (tick_id, team_id, service_id)
      else none

  -- The four tokens of a flag, from the first `Atoi` on.
  unfoldable pub verify_tokens : Bytes → List Bytes → Option (ℤ × ℤ × ℤ)
  unfolding check_signature
  verify_tokens public (t0 ∷ t1 ∷ t2 ∷ sig ∷ []) = do
    tick_id ← atoi t0
    team_id ← atoi t1
    service_id ← atoi t2
    check_signature public sig tick_id team_id service_id
  verify_tokens public _ = none

  -- `FlagGenerator.Verify`. `none` is `ok == false`, where the callers do not read the numbers.
  unfoldable pub verify : FlagGenerator → Bytes → Bytes → Option (ℤ × ℤ × ℤ)
  unfolding verify_tokens
  verify gen public flag =
      if not (has_prefix flag gen.prefix) || not (has_suffix flag gen.suffix)
      then none
      else verify_tokens public (split (trim_suffix (trim_prefix flag gen.prefix) gen.suffix) b'.')
