-- ===== src/Flag/Sound.antt =====
-- What `Verify` accepts.
use tinyrange_ad.Common.{List, [], ◌∷◌, true, some, ◌≡◌, refl, arith, ℤ}
use tinyrange_ad.Common.Text.{Bytes, has_prefix, has_suffix, trim_prefix, trim_suffix, split}
use tinyrange_ad.Flag.{Crypto, FlagGenerator, flag_data, verify_text, verify_tokens, verify}

module _ (c : Crypto) where
  -- The four tokens of an accepted flag.
  pub record Signed (public : Bytes) (ts : List Bytes) (tick team service : ℤ) : Type 0 where
    pub tick_text : Bytes
    pub team_text : Bytes
    pub service_text : Bytes
    pub sig : Bytes
    pub shape : ts ≡ tick_text ∷ team_text ∷ service_text ∷ sig ∷ []
    pub valid : verify_text c public (flag_data tick team service) sig ≡ true

  verify_tokens_sound :
      (public : Bytes) (ts : List Bytes) (tick team service : ℤ)
      → verify_tokens c public ts ≡ some (tick, team, service)
      → Signed public ts tick team service
  unfolding verify_tokens
  verify_tokens_sound public (t0 ∷ t1 ∷ t2 ∷ sig ∷ []) tick team service h = record {
    tick_text = t0;
    team_text = t1;
    service_text = t2;
    sig = sig;
    shape = refl;
    valid = ground arith;
  }
  verify_tokens_sound public _ tick team service h = absurd (ground arith)

  -- A flag is accepted only if it has the generator's prefix and suffix, has four tokens between
  -- dots there, and its last token is a signature, valid under the given key, of exactly the three
  -- numbers returned, printed in the one form that the game signs.
  pub verify_sound :
      (gen : FlagGenerator) (public flag : Bytes) (tick team service : ℤ)
      → verify c gen public flag ≡ some (tick, team, service)
      → (has_prefix flag gen.prefix ≡ true)
        × (has_suffix flag gen.suffix ≡ true)
        × Signed public
            (split (trim_suffix (trim_prefix flag gen.prefix) gen.suffix) b'.')
            tick
            team
            service
  unfolding verify
  verify_sound gen public flag tick team service h = (
    ground arith,
    ground arith,
    verify_tokens_sound public (split (trim_suffix (trim_prefix flag gen.prefix) gen.suffix) b'.')
        tick team service (ground arith),
  )
