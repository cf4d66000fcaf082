-- ===== src/Tests/Stores.antt =====
-- A file system of a list of files, a codec and tunnels that always succeed; and the database on them.
use tinyrange_ad.Common.{
  ◌>>=◌, ℕ, List, [], ◌∷◌, ◌++◌, true, Option, none, some, ℤ, pos, length, take, drop, ◌≡◌, ◌≢◌,
  refl, drop-append, take-append, if◌then◌else◌, ap, sym, ◌∙◌, some_injective, arith,
}
use tinyrange_ad.Common.Int.{negsuc}
use tinyrange_ad.Common.Text.{Bytes, codes, eqb, eqb_refl, eqb_ne}
use tinyrange_ad.Common.Dict.{lookup, insert, lookup-insert, bytes_eq}
use tinyrange_ad.Device.{DeviceConfig}
use tinyrange_ad.Persist.{validate_key}
use tinyrange_ad.Persist.Paths.{Plain}
use tinyrange_ad.Persist.Database.{Disk, Codec, entries, set, get}
use tinyrange_ad.Persist.Database.RoundTrip.{set-get, set_other}
use tinyrange_ad.Wireguard.{Wireguard}

abbrev pub Files : Type 0
Files = List (Bytes × Bytes)

pub read_written : (s : Files) (path text : Bytes) → lookup path (insert path text s) ≡ some text
read_written s path text =
    lookup-insert path path text s
    ∙ ap (λ b. if b then some text else lookup path s) (eqb_refl path)

pub read_other :
    (s : Files) (path text other : Bytes)
    → path ≢ other
    → lookup other (insert path text s) ≡ lookup other s
read_other s path text other h =
    lookup-insert path other text s
    ∙ ap (λ b. if b then some text else lookup other s) (eqb_ne path other h)

abbrev pub disk : Disk
disk = record {
  State = Files;
  read = λ s path. lookup path s;
  read_dir = λ s path. entries [];
  mkdir_all = λ s path. (true, s);
  create = λ s path. (true, insert path [] s);
  write = λ s path text. (true, insert path text s);
  read-mkdir_all = λ s dir path. refl;
  read-create = λ s path other h. read_other s path [] other h;
  read-write = λ s path text h. read_written s path text;
  read-write_other = λ s path text other h. read_other s path text other h;
}

-- The id, the length of the configuration, the configuration and the team.
abbrev pub written : ℤ → Bytes → Bytes → Option Bytes
written (pos n) config team = some (n ∷ length config ∷ config ++ team)
written (negsuc n) config team = none

abbrev saved : Bytes → Bytes → ℕ → DeviceConfig
saved config team n = record { config = config; id = pos n; team = team }

abbrev pub read_back : Bytes → Option DeviceConfig
read_back (n ∷ l ∷ s) = some (record { config = take l s; id = pos n; team = drop l s })
read_back _ = none

pub read_back-written :
    (id : ℤ) (config team text : Bytes)
    → written id config team ≡ some text
    → read_back text ≡ some (record { config = config; id = id; team = team })
read_back-written (negsuc n) config team text h = cc
read_back-written (pos n) config team text h =
    ap read_back (sym (some_injective h))
    ∙ ap (λ c. some (saved c (drop (length config) (config ++ team)) n)) (take-append config team)
    ∙ ap (λ t. some (saved config t n)) (drop-append config team)

abbrev pub json : Codec DeviceConfig
json = record { encode = λ v. written v.id v.config v.team; decode = read_back }

abbrev pub tunnels : Wireguard
tunnels = record {
  Server = Bytes;
  new_server = λ seed ip mtu inst. some [];
  create_peer =
      λ server address. some (codes "private_key=00" ++ 10 ∷ codes "public_key=01", server);
  get_config = λ server. some (codes "private_key=02" ++ 10 ∷ codes "listen_port=5");
  new_from_config = λ ip mtu config inst. some config;
}

abbrev phone : DeviceConfig
phone = record { config = codes "c"; id = pos 0; team = codes "alpha" }

set-get_example :
    get disk json
      (codes "db")
      (codes "devices")
      (codes "phone")
      (set disk json (codes "db") (codes "devices") (codes "phone") phone []).1
    ≡ (json.encode phone >>= json.decode)
unfolding set validate_key eqb
set-get_example = set-get disk json (codes "db") (codes "devices") (codes "phone") phone [] refl

Plain-phone : Plain (codes "phone")
unfolding Plain
Plain-phone = (λ e. cc, λ e. cc, λ e. cc, ground arith)

Plain-laptop : Plain (codes "laptop")
unfolding Plain
Plain-laptop = (λ e. cc, λ e. cc, λ e. cc, ground arith)

set_other_example :
    get disk json
      (codes "db")
      (codes "devices")
      (codes "laptop")
      (set disk json (codes "db") (codes "devices") (codes "phone") phone []).1
    ≡ get disk json (codes "db") (codes "devices") (codes "laptop") []
set_other_example =
    set_other disk json (codes "db") (codes "devices") (codes "phone") (codes "laptop") phone []
      (λ e. cc) Plain-phone Plain-laptop (λ e. cc)
