-- ===== src/Sockets/Resolver.antt =====
-- common.cpp, `get_server_ipv4_addr`, `get_server_ipv6_addr` and `get_server_unknown_addr`: the
-- server's address from what `getaddrinfo` answers.
use kierki_sik.Prelude.{
  ℕ, ◌+◌, ◌*◌, ◌/◌, ◌%◌, ◌≡◌, refl, ap, List, [], ◌∷◌, Option, none, some, Bytes, if◌then◌else◌,
  ◌==◌, arith,
}
use kierki_sik.Prelude.Int.{ℤ, pos, negsuc}

pub data Version : Type 0 where
  ipv4 ipv6 : Version

-- `ai_family`; `none` is neither AF_INET nor AF_INET6. The other fields are what `ai_addr` holds when
-- it is read as a `sockaddr_in` and as a `sockaddr_in6`.
pub record AddrInfo : Type 0 where
  pub family : Option Version
  pub sin_addr : Bytes
  pub sin6_addr : Bytes

-- The error code, and the list; the empty list is a null pointer.
pub record Resolution : Type 0 where
  pub errcode : ℕ
  pub address_result : List AddrInfo

-- The address that is filled in, with its port as the two bytes in memory read as a number.
pub record SockAddr : Type 0 where
  pub version : Version
  pub address : Bytes
  pub port : ℕ

-- The result, the address, and how often `freeaddrinfo` is called.
pub record Found : Type 0 where
  pub result : ℤ
  pub sockaddr : Option SockAddr
  pub freed : ℕ

-- `htons` on a machine that stores the low byte first.
unfoldable pub htons : ℕ → ℕ
htons port = port % 256 * 256 + port / 256 % 256

abbrev pub address_of : Version → AddrInfo → Bytes
address_of ipv4 e = e.sin_addr
address_of ipv6 e = e.sin6_addr

-- The loop: the entry whose family is accepted decides, but the address is that of the first entry.
unfoldable pub walk :
    (Option Version → Option Version) → (Version → ℤ) → ℕ → AddrInfo → List AddrInfo → Found
walk accepts code port address_result [] = record { result = negsuc 0; sockaddr = none; freed = 1 }
walk accepts code port address_result (entry ∷ entries) = elim (accepts entry.family) [
  | none ↦ walk accepts code port address_result entries
  | some v ↦ record {
    result = code v;
    sockaddr =
        some (record { version = v; address = address_of v address_result; port = htons port });
    freed = 1;
  }
]

abbrev pub walk_from : (Option Version → Option Version) → (Version → ℤ) → ℕ → List AddrInfo → Found
walk_from accepts code port [] = record { result = negsuc 0; sockaddr = none; freed = 1 }
walk_from accepts code port (entry ∷ entries) = walk accepts code port entry (entry ∷ entries)

abbrev pub frees : List AddrInfo → ℕ
frees [] = 0
frees (entry ∷ entries) = 1

unfoldable pub resolve : (Option Version → Option Version) → (Version → ℤ) → ℕ → Resolution → Found
unfolding walk
resolve accepts code port r =
    if r.errcode == 0
    then walk_from accepts code port r.address_result
    else record { result = negsuc 0; sockaddr = none; freed = frees r.address_result }

abbrev pub only : Version → Option Version → Option Version
only ipv4 (some ipv4) = some ipv4
only ipv6 (some ipv6) = some ipv6
only _ _ = none

abbrev pub version_code : Version → ℤ
version_code ipv4 = pos 0
version_code ipv6 = pos 1

unfoldable pub get_server_ipv4_addr : ℕ → Resolution → Found
unfolding resolve
get_server_ipv4_addr = resolve (only ipv4) (λ _. pos 0)

unfoldable pub get_server_ipv6_addr : ℕ → Resolution → Found
unfolding resolve
get_server_ipv6_addr = resolve (only ipv6) (λ _. pos 0)

unfoldable pub get_server_unknown_addr : ℕ → Resolution → Found
unfolding resolve
get_server_unknown_addr = resolve (λ family. family) version_code

-- The address of an entry with a port, whose first byte in memory is the high one.
abbrev pub found : ℤ → Version → AddrInfo → ℕ → Found
found code v entry port = record {
  result = code;
  sockaddr = some (record { version = v; address = address_of v entry; port = htons port });
  freed = 1;
}

walk-found :
    (accepts : Option Version → Option Version) (code : Version → ℤ) (v : Version) (port : ℕ)
    (entry : AddrInfo) (entries : List AddrInfo)
    → accepts entry.family ≡ some v
    → walk accepts code port entry (entry ∷ entries) ≡ found (code v) v entry port
unfolding walk
walk-found accepts code v port entry entries e = rw (e, walk) refl

module _ (port : ℕ) (entry : AddrInfo) (entries : List AddrInfo) where
  -- What `getaddrinfo` gives when it succeeds.
  abbrev pub resolution : Resolution
  resolution = record { errcode = 0; address_result = entry ∷ entries }

  -- When the resolver succeeds and its first entry has the version that is asked for, or any of the
  -- two where none is, the three functions take the address of that entry, with the port's high byte
  -- first, and free the list once.
  resolve-found :
      (v : Version)
      → entry.family ≡ some v
      → (get_server_unknown_addr port resolution ≡ found (version_code v) v entry port)
        × (v ≡ ipv4 → get_server_ipv4_addr port resolution ≡ found (pos 0) ipv4 entry port)
        × (v ≡ ipv6 → get_server_ipv6_addr port resolution ≡ found (pos 0) ipv6 entry port)
        × (htons port % 256 ≡ port / 256 % 256)
  unfolding get_server_unknown_addr get_server_ipv4_addr get_server_ipv6_addr resolve htons
  resolve-found ipv4 e = (
    walk-found (λ family. family) version_code ipv4 port entry entries e,
    (λ h. walk-found (only ipv4) (λ _. pos 0) ipv4 port entry entries (ap (only ipv4) e)),
    (λ h. absurd (cc)),
    omega arith,
  )
  resolve-found ipv6 e = (
    walk-found (λ family. family) version_code ipv6 port entry entries e,
    (λ h. absurd (cc)),
    (λ h. walk-found (only ipv6) (λ _. pos 0) ipv6 port entry entries (ap (only ipv6) e)),
    omega arith,
  )
