-- ===== src/Address/FourPart.antt =====
-- Addresses of the form host:port:login:password.
use proxy_for_windows_app.Base.{
  ℕ, ◌≡◌, refl, ap, ◌∙◌, false, ◌||◌, [], ◌∷◌, ◌++◌, ok, err, arith, ◌==◌, if◌then◌else◌, is_empty,
  All,
}
use proxy_for_windows_app.Base.Text.{Text, trim_space, contains, split}
use proxy_for_windows_app.Address.{
  NetFunctions, four_part_format, scheme_mark, http_url, normalize_proxy_address,
  proxy_display_name,
}

-- No character of a text is the separator.
abbrev pub Lacks : ℕ → Text → Type 0
Lacks sep = All (λ c. (c == sep) ≡ false)

split-last : (sep : ℕ) (a : Text) → Lacks sep a → split sep a ≡ a ∷ []
unfolding split
split-last sep [] h = refl
split-last sep (c ∷ a) (hc, ha) = rw (split-last sep a ha, hc) refl

split-first :
    (sep : ℕ) (a rest : Text) → Lacks sep a → split sep (a ++ sep ∷ rest) ≡ a ∷ split sep rest
unfolding split
split-first sep [] rest h = ground arith
split-first sep (c ∷ a) rest (hc, ha) = rw (split-first sep a rest ha, hc) refl

abbrev pub four_part : Text → Text → Text → Text → Text
four_part host port user pass = host ++ b':' ∷ (port ++ b':' ∷ (user ++ b':' ∷ pass))

split-four_part :
    (host port user pass : Text)
    → Lacks b':' host
    → Lacks b':' port
    → Lacks b':' user
    → Lacks b':' pass
    → split b':' (four_part host port user pass) ≡ host ∷ port ∷ user ∷ pass ∷ []
split-four_part host port user pass h p u w =
    split-first b':' host _ h
    ∙ ap (◌∷◌ host) (
        split-first b':' port _ p
        ∙ ap (◌∷◌ port) (split-first b':' user _ u ∙ ap (◌∷◌ user) (split-last b':' pass w)))

-- Four parts without colons, with no space around them and no scheme mark among them.
pub record IsFourPart (host port user pass : Text) : Type 0 where
  pub host_lacks : Lacks b':' host
  pub port_lacks : Lacks b':' port
  pub user_lacks : Lacks b':' user
  pub pass_lacks : Lacks b':' pass
  pub host_given : is_empty host ≡ false
  pub trimmed : trim_space (four_part host port user pass) ≡ four_part host port user pass
  pub plain : contains (four_part host port user pass) scheme_mark ≡ false

-- An address host:port:login:password becomes an HTTP proxy URL with the login and the password
-- escaped, or is refused if the port, the login or the password is empty.
pub normalize_proxy_address-four_part :
    (escape : Text → Text) (host port user pass : Text)
    → IsFourPart host port user pass
    → normalize_proxy_address escape (four_part host port user pass) ≡ (
        if is_empty port || is_empty user || is_empty pass
        then err four_part_format
        else ok (http_url (escape user) (escape pass) host port))
unfolding normalize_proxy_address
normalize_proxy_address-four_part escape [] port user pass f = cc f.host_given
normalize_proxy_address-four_part escape (c ∷ host) port user pass f =
    rw (f.trimmed, normalize_proxy_address)
      (rw f.plain (
        rw
          (split-four_part (c ∷ host) port user pass f.host_lacks f.port_lacks f.user_lacks
            f.pass_lacks)
          refl))

-- The name that is shown and logged for such an address is host:port, without login and password.
pub proxy_display_name-four_part :
    (net : NetFunctions) (host port user pass : Text)
    → IsFourPart host port user pass
    → proxy_display_name net (four_part host port user pass) ≡ host ++ b':' ∷ port
unfolding proxy_display_name
proxy_display_name-four_part net [] port user pass f = cc f.host_given
proxy_display_name-four_part net (c ∷ host) port user pass f =
    rw (f.trimmed, proxy_display_name)
      (rw f.plain (
        rw
          (split-four_part (c ∷ host) port user pass f.host_lacks f.port_lacks f.user_lacks
            f.pass_lacks)
          refl))
