-- ===== src/Apis/Certificates.antt =====
-- When the API asks for client certificates.
use Prim.Native.Char.{Char, code}
use Prim.Native.String.{[], ◌∷◌, ◌++◌}
use Prim.Native.String.append
use l3afd.Prelude.{
  ◌≡◌, refl, ap, ◌∙◌, ℕ, Bool, true, false, ◌&&◌, ◌||◌, not, String, Option, none, some, nat_eq,
  ◌==◌, if◌then◌else◌, arith,
}
use l3afd.Prelude.Text.{contains}
use l3afd.Config.{Config}
use l3afd.Config.Reading.{env_prod}
use l3afd.Os.{Os}
use l3afd.Apis.{or_loopback, before_last, is_loopback, listens_with_mtls}

-- The character does not occur in the text.
abbrev IsFree : ℕ → String → Type 0
IsFree sep [] = Unit
IsFree sep (c ∷ s) = (nat_eq (code c) sep ≡ false) × IsFree sep s

before_last-IsFree : (sep : ℕ) (s : String) → IsFree sep s → before_last sep s ≡ none
unfolding before_last
before_last-IsFree sep [] h = refl
before_last-IsFree sep (c ∷ s) h = rw (before_last-IsFree sep s h.1, h.0)

abbrev pub colon : Char
colon = ":"

before_last-append :
    (host port : String) → IsFree b':' port → before_last b':' (host ++ (colon ∷ port)) ≡ some host
unfolding before_last
before_last-append [] port h = rw (append.nil (colon ∷ port), before_last-IsFree b':' port h)
before_last-append (c ∷ host) port h =
    rw (append.cons c host (colon ∷ port), before_last-append host port h)

abbrev is_foreign : Option Bool → Bool
is_foreign none = false
is_foreign (some loopback) = not loopback

module _ ⦃os : Os⦄ where
  is_loopback-host_port :
      (host port : String)
      → IsFree b':' port
      → contains (host ++ (colon ∷ port)) "localhost:" ≡ false
      → is_loopback (host ++ (colon ∷ port)) ≡ or_loopback (os.parse_ip host)
  unfolding is_loopback
  is_loopback-host_port host port free named = rw (named, before_last-append host port free) refl

  -- For an address of a host and a port the API asks for certificates exactly where mTLS is switched
  -- on, or where the daemon runs in production and the host is an IP address that is no loopback
  -- address. A host that is no plain IP address, among them the empty host of `:port` and
  -- an IPv6 address in brackets, is served without certificates if mTLS is switched off.
  pub listens_with_mtls-host_port :
      (conf : Config) (host port : String)
      → conf.l3af_configs_rest_api_addr ≡ host ++ (colon ∷ port)
      → IsFree b':' port
      → contains (host ++ (colon ∷ port)) "localhost:" ≡ false
      → listens_with_mtls conf
        ≡ (conf.mtls_enabled || ((conf.environment == env_prod) && is_foreign (os.parse_ip host)))
  unfolding listens_with_mtls
  listens_with_mtls-host_port conf host port addr free named =
      decided (os.parse_ip host) conf.mtls_enabled (conf.environment == env_prod)
        (is_loopback conf.l3af_configs_rest_api_addr) loopback
    where
      loopback : is_loopback conf.l3af_configs_rest_api_addr ≡ or_loopback (os.parse_ip host)
      loopback = ap is_loopback addr ∙ is_loopback-host_port host port free named

      decided :
          (o : Option Bool) (enabled production loopback : Bool)
          → loopback ≡ or_loopback o
          → (if not enabled && (not loopback && production) then true else enabled)
            ≡ (enabled || (production && is_foreign o))
      decided none enabled production loopback e = ground (arith, e)
      decided (some b) enabled production loopback e = ground (arith, e)
