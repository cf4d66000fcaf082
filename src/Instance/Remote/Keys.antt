-- ===== src/Instance/Remote/Keys.antt =====
-- The SSH keys of a machine are read once.
use mathlib.Core.Path.{subst}
use tinyrange_ad.Common.{Option, none, some, [], ◌≡◌, refl, sym, ◌∙◌, ap, inl, inr, Bool-cases}
use tinyrange_ad.Common.Progress.{reached}
use tinyrange_ad.Common.Text.{Bytes, eqb}
use tinyrange_ad.Instance.Remote.{
  SecureSshConfig, ClientConfig, SshSide, KeyFile, keyed, decoded, file_read, no_client, held,
  client_config, with_secure, secure_config,
}

-- The client that is kept logs in with the password that is kept.
unfoldable pub Keyed : ClientConfig → SshSide → Type 0
Keyed c s = (s.client ≡ some c) × (s.secure.password ≡ c.login_password)

-- A client that is kept was made of what is kept.
unfoldable pub Matched : SshSide → Type 0
Matched s = (c : ClientConfig) → s.client ≡ some c → s.secure.password ≡ c.login_password

keyed-Keyed :
    (s s' : SshSide) (secure : SecureSshConfig) (key : Option Bytes) (c : ClientConfig)
    → keyed s secure key ≡ (s', reached c)
    → Keyed c s'
unfolding keyed Keyed
keyed-Keyed s s' secure none c h = absurd (cc)
keyed-Keyed s s' secure (some key) c h =
    let same_client : s'.client
        ≡ some (record { login_password = secure.password; fixed_host_key = key }) =
      ap (λ x. x.0.client) (sym h) in
    let same_secure : s'.secure ≡ secure = ap (λ x. x.0.secure) (sym h) in
    let same : record { login_password = secure.password; fixed_host_key = key } ≡ c = cc in
    (
      same_client ∙ ap (λ x. some x) same,
      ap (λ x. x.password) same_secure ∙ ap (λ x. x.login_password) same,
    )

decoded-Keyed :
    (file : KeyFile) (s s' : SshSide) (secure : Option SecureSshConfig) (c : ClientConfig)
    → decoded file s secure ≡ (s', reached c)
    → Keyed c s'
unfolding decoded
decoded-Keyed file s s' none c h = absurd (cc)
decoded-Keyed file s s' (some secure) c h = keyed-Keyed s s' secure _ c h

file_read-Keyed :
    (file : KeyFile) (s s' : SshSide) (text : Option Bytes) (c : ClientConfig)
    → file_read file s text ≡ (s', reached c)
    → Keyed c s'
unfolding file_read
file_read-Keyed file s s' none c h = absurd (cc)
file_read-Keyed file s s' (some text) c h = decoded-Keyed file s s' _ c h

no_client-Keyed :
    (file : KeyFile) (s s' : SshSide) (c : ClientConfig)
    → no_client file s ≡ (s', reached c)
    → Keyed c s'
unfolding no_client
no_client-Keyed file s s' c h = elim (Bool-cases (eqb s.secure_ssh_path [])) [
  | inl e ↦ absurd (cc)
  | inr e ↦ elim (Bool-cases file.appears) [
    | inl f ↦ file_read-Keyed file s s' file.opened c (cc)
    | inr f ↦ absurd (cc)
  ]
]

held-Keyed :
    (file : KeyFile) (s s' : SshSide) (found : Option ClientConfig) (c : ClientConfig)
    → s.client ≡ found
    → Matched s
    → held file s found ≡ (s', reached c)
    → Keyed c s'
unfolding held Matched Keyed
held-Keyed file s s' none c e matched h = no_client-Keyed file s s' c h
held-Keyed file s s' (some d) c e matched h =
    let same_state : s ≡ s' = ap (λ x. x.0) h in
    let same : d ≡ c = cc in
    subst (λ x. Keyed c x) same_state (subst (λ x. Keyed x s) same (e, matched d e))

-- Once `clientConfig` has succeeded, every later call gives the same client and changes nothing,
-- whatever the file holds by then, and `SecureConfig` gives the password of this client.
client_config-kept :
    (file later : KeyFile) (s s' : SshSide) (c : ClientConfig)
    → Matched s
    → client_config file s ≡ (s', reached c)
    → (client_config later s' ≡ (s', reached c))
      × (secure_config later s' ≡ (s', reached s'.secure))
      × (s'.secure.password ≡ c.login_password)
unfolding client_config held secure_config with_secure Keyed
client_config-kept file later s s' c matched h =
    let (kept, password) = held-Keyed file s s' s.client c refl matched h in
    let again : client_config later s' ≡ (s', reached c) = ap (held later s') kept in
    (again, ap with_secure again, password)
