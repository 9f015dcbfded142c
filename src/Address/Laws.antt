-- ===== src/Address/Laws.antt =====
-- What `normalizeProxyAddress` and `proxyHost` return.
use proxy_for_windows_app.Base.{
  ◌≡◌, refl, ◌⊎◌, inl, inr, true, Option, none, some, List, [], ◌∷◌, ok, arith, In, Bool-cases,
  Option-cases, Result-cases,
}
use proxy_for_windows_app.Base.Text.{Text, trim_space, contains, has_prefix, split}
use proxy_for_windows_app.Address.{
  NetFunctions, scheme_mark, from_parts, normalize_trimmed, normalize_proxy_address, first_ipv4,
  resolve_host, proxy_host,
}

from_parts-contains :
    (escape : Text → Text) (raw : Text) (parts : List Text) (n : Text)
    → from_parts escape raw parts ≡ ok n
    → contains n scheme_mark ≡ true
unfolding from_parts contains has_prefix
from_parts-contains escape raw [] n e = ground arith
from_parts-contains escape raw (a ∷ []) n e = ground arith
from_parts-contains escape raw (a ∷ b ∷ []) n e = ground arith
from_parts-contains escape raw (a ∷ b ∷ c ∷ []) n e = ground arith
from_parts-contains escape raw (a ∷ b ∷ c ∷ d ∷ []) n e = ground arith
from_parts-contains escape raw (a ∷ b ∷ c ∷ d ∷ f ∷ r) n e = ground arith

normalize_trimmed-contains :
    (escape : Text → Text) (raw n : Text)
    → normalize_trimmed escape raw ≡ ok n
    → contains n scheme_mark ≡ true
unfolding normalize_trimmed
normalize_trimmed-contains escape [] n e = cc
normalize_trimmed-contains escape (c ∷ s) n e =
    ground (arith, from_parts-contains escape (c ∷ s) (split b':' (c ∷ s)) n)

normalize_trimmed-url :
    (escape : Text → Text) (s : Text)
    → contains s scheme_mark ≡ true
    → normalize_trimmed escape s ≡ ok s
unfolding normalize_trimmed contains has_prefix
normalize_trimmed-url escape [] h = cc h
normalize_trimmed-url escape (c ∷ s) h = rw h refl

-- Every address that `normalizeProxyAddress` accepts comes out with a scheme mark in it.
pub normalize_proxy_address-IsUrl :
    (escape : Text → Text) (raw n : Text)
    → normalize_proxy_address escape raw ≡ ok n
    → contains n scheme_mark ≡ true
unfolding normalize_proxy_address
normalize_proxy_address-IsUrl escape raw n e =
    normalize_trimmed-contains escape (trim_space raw) n e

-- An address that `normalizeProxyAddress` returned, with no space around it, is left as it is by a
-- second call.
pub normalize_proxy_address_twice :
    (escape : Text → Text) (raw n : Text)
    → normalize_proxy_address escape raw ≡ ok n
    → trim_space n ≡ n
    → normalize_proxy_address escape n ≡ ok n
unfolding normalize_proxy_address
normalize_proxy_address_twice escape raw n e trimmed =
    rw trimmed
      (normalize_trimmed-url escape n (normalize_trimmed-contains escape (trim_space raw) n e))

first_ipv4-In : (ips : List (Option Text)) (ip : Text) → first_ipv4 ips ≡ ok ip → In (some ip) ips
unfolding first_ipv4
first_ipv4-In [] ip e = cc
first_ipv4-In (some a ∷ ips) ip e = inl (ground arith)
first_ipv4-In (none ∷ ips) ip e = inr (first_ipv4-In ips ip e)

resolve_host-IsAddress :
    (net : NetFunctions) (host ip : Text)
    → resolve_host net host ≡ ok ip
    → ((net.is_ip host ≡ true) × (ip ≡ host))
      ⊎ ((ips : List (Option Text)) × (net.lookup_ip host ≡ some ips) × In (some ip) ips)
unfolding resolve_host
resolve_host-IsAddress net host ip e = elim (Bool-cases (net.is_ip host)) [
  | inl literal ↦ inl (literal, ground arith)
  | inr name ↦ elim (Option-cases (net.lookup_ip host)) [
    | inl failed ↦ ground arith
    | inr (ips, found) ↦ inr (ips, found, first_ipv4-In ips ip (ground arith))
  ]
]

proxy_host-resolve_host :
    (net : NetFunctions) (raw ip : Text)
    → proxy_host net raw ≡ ok ip
    → (host : Text) × (resolve_host net host ≡ ok ip)
unfolding proxy_host
proxy_host-resolve_host net raw ip e =
    elim (Result-cases (normalize_proxy_address net.query_escape raw)) [
      | inr (x, bad) ↦ absurd (ground arith)
      | inl (n, normal) ↦ elim (Option-cases (net.parse n)) [
        | inl bad ↦ absurd (ground arith)
        | inr (u, parsed) ↦ elim (Option-cases (net.split_host_port u.host)) [
          | inl bad ↦ absurd (ground arith)
          | inr ((host, port), parts) ↦ (host, ground arith)
        ]
      ]
    ]

-- What `proxyHost` returns is an address: an IP literal that stands in the URL, or one of the IPv4
-- addresses that the look-up of the URL's host gave. It is never a host name.
pub proxy_host-IsAddress :
    (net : NetFunctions) (raw ip : Text)
    → proxy_host net raw ≡ ok ip
    → (host : Text) × (((net.is_ip host ≡ true) × (ip ≡ host))
        ⊎ ((ips : List (Option Text)) × (net.lookup_ip host ≡ some ips) × In (some ip) ips))
unfolding proxy_host
proxy_host-IsAddress net raw ip e =
    let (host, resolved) = proxy_host-resolve_host net raw ip e in
    (host, resolve_host-IsAddress net host ip resolved)
