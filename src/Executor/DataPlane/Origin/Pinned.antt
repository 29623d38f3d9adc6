-- ===== src/Executor/DataPlane/Origin/Pinned.antt =====
-- A download connects to addresses that were checked, also after redirects.
use admiral_fleet.Prelude.{
  Text, Bool, true, false, not, ◌&&◌, ◌||◌, List, [], ◌∷◌, ◌≡◌, refl, ◌⊎◌, inl, inr, All,
  Bool-cases, Option-cases, is_empty, eq_text, codes, to_lower, if◌then◌else◌,
}
use admiral_fleet.Fleet.Effects.{Result, ok, err}
use admiral_fleet.Executor.DataPlane.Origin.{
  Ip, Network, Trust, Url, Pins, OriginError, trusted_restore_ip, is_usable, all_or, check_resolved,
  addresses_of, host_part, resolve_restore_host, pinned_addresses, is_pinned, resolve_pinned,
  resolve_trusted_restore_origin, resolve_url, pin, pin_url, has_addresses, new_restore_client,
  follow, dialled, dial_addresses, without_dot, unapproved, restricted, valid_trusted_restore_path,
  restore_origin, invalid_url, other_origin, outside_path, no_capability, not_https,
  incomplete_capability,
}

-- Without a trusted origin: an address that `isRestrictedIP` does not restrict, or the trusted one. With
-- one: a pinned address.
abbrev pub MayDial : Network → Trust → Ip → Type 0
MayDial net t ip =
    ((is_empty t.origin ≡ true) × (is_usable (trusted_restore_ip net t.ip) ip ≡ true))
    ⊎ ((is_empty t.origin ≡ false)
        × ((allowed : List Ip) × (pinned_addresses net t.addresses ≡ ok allowed)
            × (is_pinned allowed ip ≡ true)))

-- What a check gives, if it gives addresses.
abbrev Checked : (Ip → Type 0) → Result OriginError (List Ip) → Type 0
Checked P (ok ips) = All P ips
Checked P (err e) = Unit

all_or-more :
    (P : Ip → Type 0) (ip : Ip) (r : Result OriginError (List Ip))
    → P ip
    → Checked P r
    → Checked P (elim r [ ok found ↦ ok (ip ∷ found) | err e ↦ err e ])
all_or-more P ip (ok found) h hs = (h, hs)
all_or-more P ip (err e) h hs = tt

all_or-Checked :
    (p : Ip → Bool) (refusal : Ip → OriginError) (ips : List Ip)
    → Checked (λ ip. p ip ≡ true) (all_or p refusal ips)
unfolding all_or
all_or-Checked p refusal [] = tt
all_or-Checked p refusal (ip ∷ ips) = elim (Bool-cases (p ip)) [
  | inl h ↦
      rw h
        (all_or-more (λ i. p i ≡ true) ip (all_or p refusal ips) h (all_or-Checked p refusal ips))
  | inr h ↦ rw h tt
]

resolved-Checked :
    (P : Ip → Type 0) (check : List Ip → Result OriginError (List Ip)) (host : Text)
    (r : Result Text (List Ip))
    → ((ips : List Ip) → Checked P (check ips))
    → Checked P (check_resolved check host r)
resolved-Checked P check host (err e) h = tt
resolved-Checked P check host (ok []) h = tt
resolved-Checked P check host (ok (ip ∷ ips)) h = h (ip ∷ ips)

addresses_of-Checked :
    (P : Ip → Type 0) (net : Network) (host : Text) (check : List Ip → Result OriginError (List Ip))
    → ((ips : List Ip) → Checked P (check ips))
    → Checked P (addresses_of net host check)
unfolding addresses_of
addresses_of-Checked P net host check h = elim (Option-cases (net.parse_ip host)) [
  | inl e ↦ rw (addresses_of, e) (resolved-Checked P check host (net.lookup_ip host) h)
  | inr (ip, e) ↦ rw (addresses_of, e) (h (ip ∷ []))
]

weaken :
    (P Q : Ip → Type 0) (r : Result OriginError (List Ip))
    → ((ip : Ip) → P ip → Q ip)
    → Checked P r
    → Checked Q r
weaken P Q (err e) f h = tt
weaken P Q (ok ips) f h = go ips h
  where
    go : (ips : List Ip) → All P ips → All Q ips
    go [] h = tt
    go (ip ∷ ips) h = (f ip h.0, go ips h.1)

host-Checked :
    (net : Network) (host source : Text)
    → Checked
        (λ ip. is_usable (trusted_restore_ip net source) ip ≡ true)
        (resolve_restore_host net host source)
unfolding resolve_restore_host
host-Checked net host source = elim (Bool-cases (is_empty host)) [
  | inl e ↦ rw e tt
  | inr e ↦ rw e (
      addresses_of-Checked _ net (host_part host (net.split_host_port host))
        (all_or (is_usable (trusted_restore_ip net source)) restricted)
        (all_or-Checked (is_usable (trusted_restore_ip net source)) restricted))
]

-- One of the addresses that the task pins.
abbrev Pinned : Network → Trust → Ip → Type 0
Pinned net t ip =
    (allowed : List Ip) × (pinned_addresses net t.addresses ≡ ok allowed)
    × (is_pinned allowed ip ≡ true)

Pinned-Checked :
    (net : Network) (t : Trust) (u : Url) (r : Result OriginError (List Ip))
    → pinned_addresses net t.addresses ≡ r
    → Checked (Pinned net t) (resolve_pinned net u r)
Pinned-Checked net t u (err e) h = tt
Pinned-Checked net t u (ok []) h = tt
Pinned-Checked net t u (ok (a ∷ allowed)) h =
    addresses_of-Checked (Pinned net t) net u.hostname (all_or (is_pinned (a ∷ allowed)) unapproved)
      (λ ips.
        weaken (λ ip. is_pinned (a ∷ allowed) ip ≡ true) (Pinned net t)
          (all_or (is_pinned (a ∷ allowed)) unapproved ips) (λ ip k. (a ∷ allowed, h, k))
          (all_or-Checked (is_pinned (a ∷ allowed)) unapproved ips))

if-Checked :
    (P : Ip → Type 0) (b : Bool) (e : OriginError) (r : Result OriginError (List Ip))
    → Checked P r
    → Checked P (if b then err e else r)
if-Checked P true e r h = tt
if-Checked P false e r h = h

origin-Checked :
    (net : Network) (t : Trust) (u : Url)
    → Checked (Pinned net t) (resolve_trusted_restore_origin net t u)
unfolding resolve_trusted_restore_origin
origin-Checked net t u =
    let P = Pinned net t in
    let found = resolve_pinned net u (pinned_addresses net t.addresses) in
    let capable =
      if is_empty u.customer_id || is_empty u.expires || is_empty u.signature
      then err no_capability
      else found in
    let inside =
      if not (valid_trusted_restore_path u t.path_prefix) then err outside_path else capable in
    let other =
      not (eq_text u.scheme (codes "https"))
      || not (eq_text (restore_origin u) (to_lower t.origin)) in
    if-Checked P (u.has_user || not (is_empty u.fragment)) invalid_url
      (if other then err other_origin else inside)
      (if-Checked P other other_origin inside (
        if-Checked P (not (valid_trusted_restore_path u t.path_prefix)) outside_path capable (
          if-Checked P (is_empty u.customer_id || is_empty u.expires || is_empty u.signature)
            no_capability found (Pinned-Checked net t u (pinned_addresses net t.addresses) refl))))

url-Checked : (net : Network) (t : Trust) (u : Url) → Checked (MayDial net t) (resolve_url net t u)
unfolding resolve_url
url-Checked net t u = elim (Bool-cases (is_empty t.origin)) [
  | inl e ↦ rw e (
      weaken _ (MayDial net t) (resolve_restore_host net u.host t.ip) (λ ip h. inl (e, h))
        (host-Checked net u.host t.ip))
  | inr e ↦ rw e (
      weaken _ (MayDial net t) (resolve_trusted_restore_origin net t u) (λ ip h. inr (e, h))
        (origin-Checked net t u))
]

-- Every pinned address may be used.
abbrev Pinning : Network → Trust → Result OriginError Pins → Type 0
Pinning net t (ok pins) = All (λ hp. All (MayDial net t) hp.1) pins
Pinning net t (err e) = Unit

pin-Pinning :
    (net : Network) (t : Trust) (pins : Pins) (u : Url) (r : Result OriginError (List Ip))
    → Checked (MayDial net t) r
    → Pinning net t (ok pins)
    → Pinning net t (pin pins u r)
pin-Pinning net t pins u (ok ips) h hs = (h, hs)
pin-Pinning net t pins u (err e) h hs = tt

allowed_url :
    (net : Network) (t : Trust) (b : Bool) (r : Result OriginError Pins)
    → Pinning net t r
    → Pinning net t (if b then r else err not_https)
allowed_url net t true r h = h
allowed_url net t false r h = tt

pin_url-Pinning :
    (net : Network) (t : Trust) (pins : Pins) (u : Url)
    → Pinning net t (ok pins)
    → Pinning net t (pin_url net t pins u)
unfolding pin_url
pin_url-Pinning net t pins u h =
    allowed_url net t (eq_text u.scheme (codes "https")) (pin pins u (resolve_url net t u))
      (pin-Pinning net t pins u (resolve_url net t u) (url-Checked net t u) h)

if-Pinning :
    (net : Network) (t : Trust) (b : Bool) (e : OriginError) (r : Result OriginError Pins)
    → Pinning net t r
    → Pinning net t (if b then err e else r)
if-Pinning net t true e r h = tt
if-Pinning net t false e r h = h

client-Pinning : (net : Network) (t : Trust) (u : Url) → Pinning net t (new_restore_client net t u)
unfolding new_restore_client
client-Pinning net t u =
    let trusting =
      not (is_empty t.origin) || not (is_empty t.path_prefix) || has_addresses t.addresses in
    let complete =
      not (is_empty t.origin) && not (is_empty t.path_prefix) && has_addresses t.addresses in
    let pinned = pin_url net t [] u in
    if-Pinning net t (not (eq_text u.scheme (codes "https"))) not_https
      (if trusting && not complete then err incomplete_capability else pinned)
      (if-Pinning net t (trusting && not complete) incomplete_capability pinned
        (pin_url-Pinning net t [] u tt))

follow-Pinning :
    (net : Network) (t : Trust) (us : List Url) (r : Result OriginError Pins)
    → Pinning net t r
    → Pinning net t (follow net t r us)
unfolding follow
follow-Pinning net t us (err e) h = tt
follow-Pinning net t [] (ok pins) h = h
follow-Pinning net t (u ∷ us) (ok pins) h =
    follow-Pinning net t us (pin_url net t pins u) (pin_url-Pinning net t pins u h)

dialled-MayDial :
    (net : Network) (t : Trust) (pins : Pins) (host : Text)
    → Pinning net t (ok pins)
    → All (MayDial net t) (dialled pins host)
unfolding dialled
dialled-MayDial net t [] host h = tt
dialled-MayDial net t ((k, ips) ∷ pins) host h = elim (Bool-cases (eq_text k host)) [
  | inl e ↦ rw e (h.0)
  | inr e ↦ rw e (dialled-MayDial net t pins host h.1)
]

followed :
    (net : Network) (t : Trust) (pins : Pins) (r : Result OriginError Pins)
    → r ≡ ok pins
    → Pinning net t r
    → Pinning net t (ok pins)
followed net t pins r e h = rw e at h

-- Whatever the resolver answers and wherever the server redirects to, a download connects to checked
-- addresses only: for a task without a trusted origin, to addresses that are not restricted, and to
-- the one private address that the task trusts; for a task with one, to the addresses that the task
-- pins.
pub dial_addresses-MayDial :
    (net : Network) (t : Trust) (u : Url) (redirects : List Url) (pins : Pins) (host : Text)
    → follow net t (new_restore_client net t u) redirects ≡ ok pins
    → All (MayDial net t) (dial_addresses pins host)
unfolding dial_addresses
dial_addresses-MayDial net t u redirects pins host e =
    dialled-MayDial net t pins (to_lower (without_dot host)) (
      followed net t pins (follow net t (new_restore_client net t u) redirects) e
        (follow-Pinning net t redirects (new_restore_client net t u) (client-Pinning net t u)))
