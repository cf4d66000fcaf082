-- ===== src/Instance/Remote/Output.antt =====
-- What the browser shows is what the machine has written.
use tinyrange_ad.Common.{
  List, [], ◌∷◌, ◌++◌, Option, some, ◌≡◌, refl, All, Bool-cases, inl, inr, ◌>>=◌,
}
use tinyrange_ad.Common.Base64.{Byte, decode, decode-encode}
use tinyrange_ad.Common.Text.{Bytes, eqb, eqb_iff}
use tinyrange_ad.Instance.Remote.{socket_messages}

-- The browser's side: every message decoded, one after the other.
unfoldable pub shown : List Bytes → Option Bytes
shown [] = some []
shown (message ∷ messages) =
    decode message >>= λ text. shown messages >>= λ rest. some (text ++ rest)

unfoldable pub joined : List Bytes → Bytes
joined [] = []
joined (chunk ∷ chunks) = chunk ++ joined chunks

-- The messages for the chunks of an output decode to the whole output, in whatever chunks it is read.
shown-socket_messages :
    (chunks : List Bytes)
    → All (λ chunk. All Byte chunk) chunks
    → shown (socket_messages chunks) ≡ some (joined chunks)
unfolding shown socket_messages joined
shown-socket_messages [] h = refl
shown-socket_messages (chunk ∷ chunks) h =
    let ih = shown-socket_messages chunks h.1 in
    elim (Bool-cases (eqb chunk [])) [
      | inl e ↦ let none_there = (eqb_iff chunk []).0 e in rw (e, none_there) ih
      | inr e ↦ rw (e, decode-encode chunk h.0, ih) refl
    ]
