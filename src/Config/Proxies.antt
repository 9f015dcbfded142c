-- ===== src/Config/Proxies.antt =====
-- The list of proxies that `normalizeProxyConfig` leaves.
use proxy_for_windows_app.Base.{
  ℕ, ◌≡◌, refl, inl, inr, Bool, false, ◌||◌, List, [], ◌∷◌, ◌++◌, arith, is_some, is_empty, any,
  All, Bool-cases,
}
use proxy_for_windows_app.Base.Text.{Text, codes, same, trim_space, Text-discrete}
use proxy_for_windows_app.Base.Dict.{lookup, lookup-insert}
use proxy_for_windows_app.Address.{NetFunctions}
use proxy_for_windows_app.Config.{
  ProxyEntry, Kept, or_else, proxy_id, complete_proxy, add_proxy, take_proxy, take_proxies,
  legacy_proxy, normalize_proxies,
}

abbrev pub has_id : Text → List ProxyEntry → Bool
has_id id = any (λ p. same id p.id)

-- No two entries have one ID.
abbrev pub UniqueIds : List ProxyEntry → Type 0
UniqueIds [] = Unit
UniqueIds (p ∷ ps) = (has_id p.id ps ≡ false) × UniqueIds ps

abbrev pub IsGiven : ProxyEntry → Type 0
IsGiven p = (is_empty p.id ≡ false) × (is_empty p.url ≡ false)

-- Every entry has an ID and a URL, no ID stands twice, and `proxyIDs` holds just the IDs of the list.
pub record IsKept (k : Kept) : Type 0 where
  pub unique : UniqueIds k.proxies
  pub given : All IsGiven k.proxies
  pub recorded : (id : Text) → is_some (lookup Text-discrete id k.proxy_ids) ≡ has_id id k.proxies

has_id-append :
    (id : Text) (ps : List ProxyEntry) (p : ProxyEntry)
    → has_id id (ps ++ p ∷ []) ≡ (has_id id ps || same id p.id)
has_id-append id [] p = ground arith
has_id-append id (q ∷ ps) p = ground (arith, has_id-append id ps p)

UniqueIds-append :
    (ps : List ProxyEntry) (p : ProxyEntry)
    → UniqueIds ps
    → has_id p.id ps ≡ false
    → UniqueIds (ps ++ p ∷ [])
UniqueIds-append [] p u new = (refl, tt)
UniqueIds-append (q ∷ ps) p u new =
    (ground (arith, has_id-append q.id ps p), UniqueIds-append ps p u.1 (ground arith))

All-append {ℓ} :
    (P : ProxyEntry → Type ℓ) (ps : List ProxyEntry) (p : ProxyEntry)
    → All P ps
    → P p
    → All P (ps ++ p ∷ [])
All-append P [] p h x = (x, tt)
All-append P (q ∷ ps) p h x = (h.0, All-append P ps p h.1 x)

add_proxy-IsKept : (p : ProxyEntry) (k : Kept) → IsGiven p → IsKept k → IsKept (add_proxy p k)
unfolding add_proxy
add_proxy-IsKept p k g h = elim (Bool-cases (is_some (lookup Text-discrete p.id k.proxy_ids))) [
  | inl old ↦ rw old h
  | inr new ↦ rw new (record {
    unique = UniqueIds-append k.proxies p h.unique (ground (arith, h.recorded p.id));
    given = All-append IsGiven k.proxies p h.given g;
    recorded = λ id. ground (
      arith,
      h.recorded id,
      lookup-insert Text-discrete id p.id tt k.proxy_ids,
      has_id-append id k.proxies p,
    );
  })
]

or_else-given : (s t : Text) → is_empty t ≡ false → is_empty (or_else s t) ≡ false
unfolding or_else
or_else-given [] t h = h
or_else-given (c ∷ s) t h = refl

complete_proxy-IsGiven :
    (net : NetFunctions) (ps : List ProxyEntry) (p : ProxyEntry)
    → is_empty (trim_space p.url) ≡ false
    → IsGiven (complete_proxy net ps p)
unfolding complete_proxy proxy_id
complete_proxy-IsGiven net ps p h = (or_else-given (trim_space p.id) _ refl, h)

module _ (net : NetFunctions) where
  take_proxy-IsKept : (k : Kept) (p : ProxyEntry) → IsKept k → IsKept (take_proxy net k p)
  unfolding take_proxy
  take_proxy-IsKept k p h = elim (Bool-cases (is_empty (trim_space p.url))) [
    | inl none_given ↦ rw none_given h
    | inr given ↦ rw given (add_proxy-IsKept _ k (complete_proxy-IsGiven net k.proxies p given) h)
  ]

  take_proxies-IsKept :
      (k : Kept) (ps : List ProxyEntry) → IsKept k → IsKept (take_proxies net k ps)
  unfolding take_proxies
  take_proxies-IsKept k [] h = h
  take_proxies-IsKept k (p ∷ ps) h =
      take_proxies-IsKept (take_proxy net k p) ps (take_proxy-IsKept k p h)

  legacy_proxy-kept :
      (c : ℕ) (s : Text) (k : Kept) (ps : List ProxyEntry)
      → k.proxies ≡ ps
      → IsKept k
      → IsKept (legacy_proxy (c ∷ s) k)
  unfolding legacy_proxy
  legacy_proxy-kept c s k [] e h =
      rw (e, legacy_proxy)
        (record {
          unique = (refl, tt);
          given = ((refl, refl), tt);
          recorded = λ id. ground (
            arith,
            h.recorded id,
            lookup-insert Text-discrete id (codes "proxy-1") tt k.proxy_ids,
          );
        })
  legacy_proxy-kept c s k (p ∷ ps) e h = rw (e, legacy_proxy) h

  legacy_proxy-IsKept : (url : Text) (k : Kept) → IsKept k → IsKept (legacy_proxy url k)
  unfolding legacy_proxy
  legacy_proxy-IsKept [] k h = h
  legacy_proxy-IsKept (c ∷ s) k h = legacy_proxy-kept c s k k.proxies refl h

  -- Whatever the configuration held, every proxy that is kept has an ID and a URL, no two have the same
  -- ID, and the set of IDs by which applications are checked holds just theirs.
  pub normalize_proxies-IsKept :
      (url : Text) (ps : List ProxyEntry) → IsKept (normalize_proxies net url ps)
  unfolding normalize_proxies lookup
  normalize_proxies-IsKept url ps =
      legacy_proxy-IsKept url _
        (take_proxies-IsKept _ ps (record { unique = tt; given = tt; recorded = λ id. refl }))
