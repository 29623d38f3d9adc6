-- ===== src/Executor/DataPlane/Origin.antt =====
-- From which addresses a restore artifact may be downloaded (executor_restore.go): the checks of the
-- host and of a trusted origin, and the addresses that are pinned for the connection. An IPv4
-- address that is written as an IPv6 one counts as IPv4, as `net.IP` has it.
pub mod Pinned
use admiral_fleet.Prelude.{
  Text, ℕ, ◌/◌, ◌^◌, codes, Bool, true, false, not, List, [], ◌∷◌, ◌++◌, Option, none, some, ◌==◌,
  ◌&&◌, ◌||◌, if◌then◌else◌, any_of, eq_text, is_empty, has_prefix, trim_prefix, to_lower,
  trim_space, has_suffix, take, length, ◌-◌,
}
use admiral_fleet.Fleet.Effects.{Result, ok, err}
use admiral_fleet.Fleet.Paths.{split}

pub data Ip : Type 0 where
  v4 v6 : ℕ → Ip

-- `ip.Equal`, and equality of `ip.String()`
unfoldable pub eq_ip : Ip → Ip → Bool
eq_ip (v4 a) (v4 b) = a == b
eq_ip (v4 a) (v6 b) = false
eq_ip (v6 a) (v4 b) = false
eq_ip (v6 a) (v6 b) = a == b

-- `IsLoopback`, `IsPrivate`, `IsUnspecified`, `IsLinkLocalUnicast` and `IsMulticast` of `net.IP`
unfoldable pub is_loopback : Ip → Bool
is_loopback (v4 n) = n / 2 ^ 24 == 127
is_loopback (v6 n) = n == 1

unfoldable pub is_private : Ip → Bool
is_private (v4 n) = n / 2 ^ 24 == 10 || n / 2 ^ 20 == 2753 || n / 2 ^ 16 == 49320
is_private (v6 n) = n / 2 ^ 121 == 126

unfoldable pub is_unspecified : Ip → Bool
is_unspecified (v4 n) = n == 0
is_unspecified (v6 n) = n == 0

unfoldable pub is_link_local_unicast : Ip → Bool
is_link_local_unicast (v4 n) = n / 2 ^ 16 == 43518
is_link_local_unicast (v6 n) = n / 2 ^ 118 == 1018

unfoldable pub is_multicast : Ip → Bool
is_multicast (v4 n) = n / 2 ^ 28 == 14
is_multicast (v6 n) = n / 2 ^ 120 == 255

-- `100.64.0.0/10`, `192.0.2.0/24` and `2001:db8::/32`
unfoldable pub in_restricted_block : Ip → Bool
in_restricted_block (v4 n) = n / 2 ^ 22 == 401 || n / 2 ^ 8 == 12582914
in_restricted_block (v6 n) = n / 2 ^ 96 == 536939960

-- `isRestrictedIP`
unfoldable pub is_restricted_ip : Ip → Bool
unfolding is_loopback is_private is_unspecified is_link_local_unicast in_restricted_block
is_restricted_ip ip =
    is_loopback ip
    || is_private ip
    || is_unspecified ip
    || is_link_local_unicast ip
    || in_restricted_block ip

-- `net.ParseIP`, `net.SplitHostPort` without the port, and the resolver
pub record Network : Type 0 where
  pub parse_ip : Text → Option Ip
  pub split_host_port : Text → Option Text
  pub lookup_ip : Text → Result Text (List Ip)

abbrev pub keep_trusted : Option Ip → Option Ip
keep_trusted none = none
keep_trusted (some ip) =
    if not (is_private ip)
      || is_loopback ip
      || is_link_local_unicast ip
      || is_unspecified ip
      || is_multicast ip
    then none
    else some ip

-- `trustedRestoreIP`
unfoldable pub trusted_restore_ip : Network → Text → Option Ip
unfolding is_private is_loopback is_link_local_unicast is_unspecified is_multicast trim_space
trusted_restore_ip net source = keep_trusted (net.parse_ip (trim_space source))

pub data OriginError : Type 0 where
  empty_host : OriginError
  restricted : Ip → OriginError
  not_resolved : Text → OriginError
  no_addresses : Text → OriginError
  invalid_url other_origin outside_path no_capability : OriginError
  invalid_trusted_address : Text → OriginError
  no_pinned_addresses : OriginError
  unapproved : Ip → OriginError
  not_https incomplete_capability : OriginError

abbrev pub is_trusted : Option Ip → Ip → Bool
is_trusted none ip = false
is_trusted (some t) ip = eq_ip ip t

-- An address that may be used: public, or the trusted one.
unfoldable pub is_usable : Option Ip → Ip → Bool
unfolding is_restricted_ip eq_ip
is_usable trusted ip = not (is_restricted_ip ip) || is_trusted trusted ip

-- The first address that does not pass the test refuses them all.
unfoldable pub all_or : (Ip → Bool) → (Ip → OriginError) → List Ip → Result OriginError (List Ip)
all_or p refusal [] = ok []
all_or p refusal (ip ∷ ips) =
    let rest = all_or p refusal ips in
    if not (p ip)
    then err (refusal ip)
    else elim rest [ ok found ↦ ok (ip ∷ found) | err e ↦ err e ]

abbrev pub some_addresses :
    Text → List Ip → (List Ip → Result OriginError (List Ip)) → Result OriginError (List Ip)
some_addresses host [] check = err (no_addresses host)
some_addresses host (ip ∷ ips) check = check (ip ∷ ips)

abbrev pub check_resolved :
    (List Ip → Result OriginError (List Ip))
    → Text
    → Result Text (List Ip)
    → Result OriginError (List Ip)
check_resolved check host (err e) = err (not_resolved e)
check_resolved check host (ok ips) = some_addresses host ips check

-- An address that is written out, or the answers of the resolver.
unfoldable pub addresses_of :
    Network → Text → (List Ip → Result OriginError (List Ip)) → Result OriginError (List Ip)
addresses_of net host check = elim (net.parse_ip host) [
  | some ip ↦ check (ip ∷ [])
  | none ↦ check_resolved check host (net.lookup_ip host)
]

abbrev pub host_part : Text → Option Text → Text
host_part host none = host
host_part host (some h) = h

-- `resolveRestoreHost`
unfoldable pub resolve_restore_host : Network → Text → Text → Result OriginError (List Ip)
unfolding addresses_of all_or is_usable trusted_restore_ip
resolve_restore_host net host source =
    if is_empty host
    then err empty_host
    else addresses_of net (host_part host (net.split_host_port host))
        (all_or (is_usable (trusted_restore_ip net source)) restricted)

-- `url.URL`, with the three parameters of the query that are looked at
pub record Url : Type 0 where
  pub scheme : Text
  pub host : Text
  pub hostname : Text
  pub has_user : Bool
  pub fragment : Text
  pub path : Text
  pub customer_id : Text
  pub expires : Text
  pub signature : Text

-- `restoreOrigin`
unfoldable pub restore_origin : Url → Text
unfolding to_lower
restore_origin u = to_lower u.scheme ++ (codes "://" ++ to_lower u.host)

abbrev pub is_download : List Text → Bool
is_download (backup ∷ action ∷ []) =
    has_prefix backup (codes "upbk_") && eq_text action (codes "download")
is_download parts = false

-- `validTrustedRestorePath`
unfoldable pub valid_trusted_restore_path : Url → Text → Bool
unfolding has_prefix trim_prefix split eq_text
valid_trusted_restore_path u prefix =
    not (is_empty prefix)
    && has_prefix u.path prefix
    && is_download (split (trim_prefix u.path prefix))

-- A source that is trusted by its origin: `TrustedSourceOrigin`, `TrustedSourcePathPrefix` and
-- `TrustedSourceIPs`, and the address `TrustedSourceIP`.
pub record Trust : Type 0 where
  pub origin : Text
  pub path_prefix : Text
  pub addresses : List Text
  pub ip : Text

abbrev pub pin_address :
    Text → Option Ip → Result OriginError (List Ip) → Result OriginError (List Ip)
pin_address raw none rest = err (invalid_trusted_address raw)
pin_address raw (some ip) (ok ips) =
    if is_restricted_ip ip then ok (ip ∷ ips) else err (invalid_trusted_address raw)
pin_address raw (some ip) (err e) =
    if is_restricted_ip ip then err e else err (invalid_trusted_address raw)

-- The addresses that the task pins, each of which must be a restricted one.
unfoldable pub pinned_addresses : Network → List Text → Result OriginError (List Ip)
unfolding is_restricted_ip trim_space
pinned_addresses net [] = ok []
pinned_addresses net (raw ∷ raws) =
    pin_address raw (net.parse_ip (trim_space raw)) (pinned_addresses net raws)

abbrev pub is_pinned : List Ip → Ip → Bool
is_pinned allowed ip = any_of (λ a. eq_ip a ip) allowed

abbrev pub resolve_pinned :
    Network → Url → Result OriginError (List Ip) → Result OriginError (List Ip)
resolve_pinned net u (err e) = err e
resolve_pinned net u (ok []) = err no_pinned_addresses
resolve_pinned net u (ok (a ∷ allowed)) =
    addresses_of net u.hostname (all_or (is_pinned (a ∷ allowed)) unapproved)

-- `resolveTrustedRestoreOrigin`
unfoldable pub resolve_trusted_restore_origin : Network → Trust → Url → Result OriginError (List Ip)
unfolding restore_origin valid_trusted_restore_path pinned_addresses addresses_of all_or eq_ip
    eq_text to_lower
resolve_trusted_restore_origin net t u =
    if u.has_user || not (is_empty u.fragment)
    then err invalid_url
    else if not (eq_text u.scheme (codes "https"))
        || not (eq_text (restore_origin u) (to_lower t.origin))
    then err other_origin
    else if not (valid_trusted_restore_path u t.path_prefix)
    then err outside_path
    else if is_empty u.customer_id || is_empty u.expires || is_empty u.signature
    then err no_capability
    else resolve_pinned net u (pinned_addresses net t.addresses)

abbrev pub has_addresses : List Text → Bool
has_addresses [] = false
has_addresses (a ∷ addresses) = true

-- How the addresses of a URL are found, by the trust that the task carries.
unfoldable pub resolve_url : Network → Trust → Url → Result OriginError (List Ip)
unfolding resolve_trusted_restore_origin resolve_restore_host
resolve_url net t u =
    if is_empty t.origin
    then resolve_restore_host net u.host t.ip
    else resolve_trusted_restore_origin net t u

-- The hosts that were checked, with their addresses, the newest first.
abbrev pub Pins : Type 0
Pins = List (Text × List Ip)

abbrev pub pin : Pins → Url → Result OriginError (List Ip) → Result OriginError Pins
pin pins u (err e) = err e
pin pins u (ok ips) = ok ((to_lower u.hostname, ips) ∷ pins)

-- `pinURL`, with which each redirect is checked
unfoldable pub pin_url : Network → Trust → Pins → Url → Result OriginError Pins
unfolding resolve_url eq_text to_lower
pin_url net t pins u =
    if eq_text u.scheme (codes "https") then pin pins u (resolve_url net t u) else err not_https

-- `newRestoreHTTPClient`: the pins of the first URL. The certificates are not looked at.
unfoldable pub new_restore_client : Network → Trust → Url → Result OriginError Pins
unfolding pin_url eq_text
new_restore_client net t u =
    let trusting =
      not (is_empty t.origin) || not (is_empty t.path_prefix) || has_addresses t.addresses in
    let complete =
      not (is_empty t.origin) && not (is_empty t.path_prefix) && has_addresses t.addresses in
    if not (eq_text u.scheme (codes "https"))
    then err not_https
    else if trusting && not complete
    then err incomplete_capability
    else pin_url net t [] u

-- The redirects that the client follows: the first one that is refused ends the download.
unfoldable pub follow :
    Network → Trust → Result OriginError Pins → List Url → Result OriginError Pins
unfolding pin_url
follow net t (err e) us = err e
follow net t (ok pins) [] = ok pins
follow net t (ok pins) (u ∷ us) = follow net t (pin_url net t pins u) us

abbrev pub without_dot : Text → Text
without_dot s = if has_suffix s (codes ".") then take (length s - 1) s else s

-- `DialContext`: the addresses that a connection to a host tries
unfoldable pub dialled : Pins → Text → List Ip
unfolding eq_text
dialled [] host = []
dialled ((h, ips) ∷ pins) host =
    let older = dialled pins host in if eq_text h host then ips else older

unfoldable pub dial_addresses : Pins → Text → List Ip
unfolding dialled to_lower has_suffix
dial_addresses pins host = dialled pins (to_lower (without_dot host))
