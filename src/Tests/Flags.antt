-- ===== src/Tests/Flags.antt =====
-- Flags on concrete inputs.
use tinyrange_ad.Common.{some, ◌≡◌, true, pos, arith}
use tinyrange_ad.Common.Text.{codes, has_prefix, has_suffix, split, trim_prefix, trim_suffix}
use tinyrange_ad.Flag.{verify, generate, signer_public}
use tinyrange_ad.Flag.RoundTrip.{verify-generate}
use tinyrange_ad.Flag.Sound.{Signed, verify_sound}
use tinyrange_ad.Tests.{crypto, generator}

verify-generate_example :
    verify crypto generator
      (signer_public crypto 7)
      (generate crypto generator (pos 2) (pos 1) (pos 0) 7)
    ≡ some (pos 2, pos 1, pos 0)
verify-generate_example =
    verify-generate crypto generator 7 (pos 2) (pos 1) (pos 0) (ground arith) (ground arith)
      (ground arith)

verify_sound_example :
    let flag = generate crypto generator (pos 2) (pos 1) (pos 0) 7 in
    (has_prefix flag (codes "flag{") ≡ true)
    × (has_suffix flag (codes "}") ≡ true)
    × Signed crypto
        (signer_public crypto 7)
        (split (trim_suffix (trim_prefix flag (codes "flag{")) (codes "}")) b'.')
        (pos 2)
        (pos 1)
        (pos 0)
verify_sound_example =
    verify_sound crypto generator (signer_public crypto 7)
      (generate crypto generator (pos 2) (pos 1) (pos 0) 7) (pos 2) (pos 1) (pos 0)
      verify-generate_example
