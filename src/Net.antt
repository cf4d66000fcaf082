-- ===== src/Net.antt =====
-- Addresses: package net as the program uses it, and `ipPort` of cmd/ad/common.go.
use tinyrange_ad.Common.{
  ℕ, List, [], ◌∷◌, ◌++◌, Bool, true, false, ◌&&◌, ◌||◌, Option, none, some, if◌then◌else◌, ◌>>=◌,
  ◌==◌, ℤ, pos, ◌≡◌, ◌↔◌, arith,
}
use tinyrange_ad.Common.Text.{Bytes, cut, split}
use tinyrange_ad.Common.Decimal.{itoa}

-- An IPv4 address, its bytes from the left.
pub record Ip : Type 0 where
  pub a : ℕ
  pub b : ℕ
  pub c : ℕ
  pub d : ℕ

abbrev pub ipv4 : ℕ → ℕ → ℕ → ℕ → Ip
ipv4 a b c d = record { a = a; b = b; c = c; d = d }

-- `net.IP.Equal`.
unfoldable pub ip_equal : Ip → Ip → Bool
ip_equal x y = x.a == y.a && (x.b == y.b && (x.c == y.c && x.d == y.d))

pub ip_equal_iff : (x y : Ip) → (ip_equal x y ≡ true) ↔ (x ≡ y)
unfolding ip_equal
ip_equal_iff x y = ground arith

-- `net.IP.String`.
unfoldable pub ip_string : Ip → Bytes
ip_string x =
    itoa (pos x.a)
    ++ (b'.' ∷ (itoa (pos x.b) ++ (b'.' ∷ (itoa (pos x.c) ++ (b'.' ∷ itoa (pos x.d))))))

unfoldable pub ip_port : Bytes → ℤ → Bytes
ip_port ip port = ip ++ (b':' ∷ itoa port)

abbrev pub host_ip : Ip
host_ip = ipv4 10 40 0 1

abbrev pub scorebot_ip : Ip
scorebot_ip = ipv4 10 40 0 10

abbrev pub vm_ip : Ip
vm_ip = ipv4 10 42 0 2

abbrev pub vm_ssh_port : ℤ
vm_ssh_port = pos 2222

has_byte : ℕ → Bytes → Bool
has_byte b [] = false
has_byte b (c ∷ s) = c == b || has_byte b s

two_parts : List Bytes → Option (Bytes × Bytes)
two_parts (host ∷ port ∷ []) = some (host, port)
two_parts _ = none

-- What follows the closing bracket must be a colon and a port.
bracketed : Bytes → Bytes → Option (Bytes × Bytes)
bracketed host [] = none
bracketed host (c ∷ port) =
    if c == b':'
    then (if has_byte b':' port
          || (has_byte b'[' port || (has_byte b']' port || has_byte b'[' host))
        then none
        else some (host, port))
    else none

-- `net.SplitHostPort`, with `none` for its errors.
unfoldable pub split_host_port : Bytes → Option (Bytes × Bytes)
unfolding two_parts bracketed cut has_byte
split_host_port [] = none
split_host_port (c ∷ s) =
    if c == b'['
    then (cut b']' s >>= λ r. bracketed r.0 r.1)
    else if has_byte b'[' (c ∷ s) || has_byte b']' (c ∷ s)
    then none
    else two_parts (split (c ∷ s) b':')
