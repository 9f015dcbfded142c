-- ===== src/Probe/Cached.antt =====
-- The cache of the countries of proxies.
use mathlib.Core.Path.{subst}
use proxy_for_windows_app.Base.{
  ◌≡◌, refl, sym, ◌∙◌, false, Option, none, some, [], ◌∷◌, ok, is_empty, arith,
}
use proxy_for_windows_app.Base.Text.{Text, trim_space, Text-discrete}
use proxy_for_windows_app.Base.Dict.{lookup, insert, lookup-insert}
use proxy_for_windows_app.Address.{NetFunctions, proxy_host, normalize_proxy_address}
use proxy_for_windows_app.Probe.{
  ProxyMetadata, GeoAnswer, Cache, MetadataReply, lookup_country, looked_up, from_cache,
  handle_proxy_metadata,
}

-- An address that has a host is not empty.
host-given : (net : NetFunctions) (s host : Text) → proxy_host net s ≡ ok host → is_empty s ≡ false
unfolding proxy_host normalize_proxy_address trim_space
host-given net [] host e = ground arith
host-given net (c ∷ s) host e = refl

module _ (net : NetFunctions) (host : Text) where
  at_known_host :
      (service : Text → Option GeoAnswer) (raw : Text) (cache : Cache)
      → proxy_host net (trim_space raw) ≡ ok host
      → handle_proxy_metadata net service raw cache
        ≡ from_cache host (lookup Text-discrete host cache) service cache
  unfolding handle_proxy_metadata
  at_known_host service raw cache e = rw (host-given net (trim_space raw) host e, e) refl

  lookup-same :
      (m : ProxyMetadata) (cache : Cache)
      → lookup Text-discrete host (insert Text-discrete host m cache) ≡ some m
  lookup-same m cache = ground (arith, lookup-insert Text-discrete host host m cache)

  looked_up-again :
      (o : Option ProxyMetadata) (later : Text → Option GeoAnswer) (cache : Cache)
      (m : ProxyMetadata)
      → lookup Text-discrete host cache ≡ none
      → lookup Text-discrete host (looked_up host o cache).1 ≡ some m
      → from_cache host
          (lookup Text-discrete host (looked_up host o cache).1)
          later
          (looked_up host o cache).1
        ≡ looked_up host o cache
  unfolding looked_up from_cache
  looked_up-again none later cache m e known = absurd (ground (arith, e, known))
  looked_up-again (some m') later cache m e known = rw (lookup-same m' cache) refl

  from_cache-again :
      (o : Option ProxyMetadata) (service later : Text → Option GeoAnswer) (cache : Cache)
      (m : ProxyMetadata)
      → lookup Text-discrete host cache ≡ o
      → lookup Text-discrete host (from_cache host o service cache).1 ≡ some m
      → from_cache host
          (lookup Text-discrete host (from_cache host o service cache).1)
          later
          (from_cache host o service cache).1
        ≡ from_cache host o service cache
  unfolding from_cache
  from_cache-again (some m') service later cache m e known = rw e refl
  from_cache-again none service later cache m e known =
      looked_up-again (lookup_country host (service host)) later cache m e known

-- Once the metadata of a host is in the cache, a request for a proxy on that host is answered as the one
-- before, whatever the service says by then, and leaves the cache as it is.
pub handle_proxy_metadata_twice :
    (net : NetFunctions) (service later : Text → Option GeoAnswer) (raw again host : Text)
    (cache : Cache) (m : ProxyMetadata)
    → proxy_host net (trim_space raw) ≡ ok host
    → proxy_host net (trim_space again) ≡ ok host
    → lookup Text-discrete host (handle_proxy_metadata net service raw cache).1 ≡ some m
    → handle_proxy_metadata net later again (handle_proxy_metadata net service raw cache).1
      ≡ handle_proxy_metadata net service raw cache
handle_proxy_metadata_twice net service later raw again host cache m e e' known =
    let first = at_known_host net host service raw cache e in
    let second =
      at_known_host net host later again (handle_proxy_metadata net service raw cache).1 e' in
    let same =
      from_cache-again net host (lookup Text-discrete host cache) service later cache m refl (
        subst (λ (o : MetadataReply × Cache). lookup Text-discrete host o.1 ≡ some m) first
          known) in
    second
    ∙ subst
        (λ (o : MetadataReply × Cache).
          from_cache host (lookup Text-discrete host o.1) later o.1 ≡ o)
        (sym first) same
