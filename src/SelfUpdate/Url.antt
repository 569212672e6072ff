-- ===== src/SelfUpdate/Url.antt =====
-- internal/selfupdate/urlpolicy.go: which addresses an update may be downloaded from. net/url's parser
-- and net.ParseIP are parameters.
pub mod Allowed
use platform_agent.Prelude.{
  ℕ, ◌+◌, ◌≡◌, Bool, true, false, not, ◌&&◌, ◌||◌, Option, none, some, List, [], ◌∷◌, length,
  if◌then◌else◌, ◌==◌, ltb, Result, ok, err,
}
use platform_agent.Prelude.Int.{ℤ, pos, ltb_ℤ, leb_ℤ}
use platform_agent.Bytes.{Bytes, beq}
use platform_agent.Bytes.Text.{codes, is_digit, ascii_lower_byte, is_ascii}
use platform_agent.Bytes.Trim.{trim_space}

pub record UrlPolicy : Type 0 where
  pub allowed_hosts : List Bytes
  pub max_redirects : ℤ

pub record CanonicalUrl : Type 0 where
  pub scheme : Bytes
  pub host : Bytes
  pub port : Bytes
  pub path : Bytes
  pub raw : Bytes

-- What the checks read of a parsed address.
pub record Url : Type 0 where
  pub scheme : Bytes
  pub has_user : Bool
  pub opaque : Bytes
  pub hostname : Bytes
  pub port : Bytes
  pub path : Bytes

-- The one code is ErrURLRejected; the reason tells the check.
pub data UrlRefusal : Type 0 where
  unparseable_url scheme_not_https userinfo opaque_url empty_host non_ascii_host : UrlRefusal
  ip_literal_host port_not_443 host_not_allowed too_many_redirects : UrlRefusal

unfoldable pub lower : Bytes → Bytes
lower [] = []
lower (c ∷ s) = ascii_lower_byte c ∷ lower s

-- The two letters outside ASCII that Unicode folds to an ASCII one: the long s and the Kelvin sign.
unfoldable pub fold_ascii : Bytes → Bytes
fold_ascii [] = []
fold_ascii (c ∷ []) = ascii_lower_byte c ∷ []
fold_ascii (c ∷ d ∷ []) =
    let next = fold_ascii (d ∷ []) in
    if c == 0xC5 && d == 0xBF then b's' ∷ [] else ascii_lower_byte c ∷ next
fold_ascii (c ∷ d ∷ e ∷ s) =
    let next = fold_ascii (d ∷ e ∷ s) in
    let after_two = fold_ascii (e ∷ s) in
    let after_three = fold_ascii s in
    if c == 0xC5 && d == 0xBF
    then b's' ∷ after_two
    else if c == 0xE2 && (d == 0x84 && e == 0xAA)
    then b'k' ∷ after_three
    else ascii_lower_byte c ∷ next

-- strings.EqualFold, for a second string in ASCII.
unfoldable pub equal_fold : Bytes → Bytes → Bool
equal_fold s t = beq (fold_ascii s) (lower t)

unfoldable pub any_host : List Bytes → Bytes → Bool
any_host [] host = false
any_host (h ∷ hs) host = equal_fold (trim_space h) host || any_host hs host

unfoldable pub host_allowed : UrlPolicy → Bytes → Bool
host_allowed pol host = any_host pol.allowed_hosts host

-- The host's loop: a byte that is neither a digit nor a dot makes a name of it.
unfoldable pub is_dotted_number : Bool → Bytes → Bool
is_dotted_number has_digit [] = has_digit
is_dotted_number has_digit (c ∷ s) =
    let digit = is_dotted_number true s in
    let dot = is_dotted_number has_digit s in
    if is_digit c then digit else if c == b'.' then dot else false

has_0x : Bytes → Bool
has_0x (c ∷ d ∷ s) = c == b'0' && d == b'x'
has_0x _ = false

module _ (parse_ip : Bytes → Bool) where
  unfoldable pub is_forbidden_ip_literal_host : Bytes → Bool
  unfolding has_0x
  is_forbidden_ip_literal_host host =
      if length host == 0
      then false
      else if parse_ip host
      then true
      else if has_0x host
      then true
      else is_dotted_number false host

  -- The checks on a host, once it is in lower case.
  unfoldable pub check_host : UrlPolicy → Url → Bytes → Bytes → Result UrlRefusal CanonicalUrl
  check_host pol u host raw =
      if is_forbidden_ip_literal_host host
      then err ip_literal_host
      else if not (length u.port == 0) && not (beq u.port (codes "443"))
      then err port_not_443
      else if not (host_allowed pol host)
      then err host_not_allowed
      else ok
          (record { scheme = codes "https"; host = host; port = u.port; path = u.path; raw = raw })

  unfoldable pub check_parsed : UrlPolicy → Bytes → Option Url → Result UrlRefusal CanonicalUrl
  check_parsed pol raw none = err unparseable_url
  check_parsed pol raw (some u) =
      if not (equal_fold u.scheme (codes "https"))
      then err scheme_not_https
      else if u.has_user
      then err userinfo
      else if not (length u.opaque == 0)
      then err opaque_url
      else if length u.hostname == 0
      then err empty_host
      else if not (is_ascii u.hostname)
      then err non_ascii_host
      else check_host pol u (lower u.hostname) raw

  module _ (url_parse : Bytes → Option Url) where
    unfoldable pub check_url : Bytes → UrlPolicy → Result UrlRefusal CanonicalUrl
    check_url raw pol = check_parsed pol raw (url_parse (trim_space raw))

    -- The refusal of a result, if it is one.
    abbrev pub refusal : Result UrlRefusal CanonicalUrl → Option UrlRefusal
    refusal (ok u) = none
    refusal (err e) = some e

    first_refusal : Option UrlRefusal → Option UrlRefusal → Option UrlRefusal
    first_refusal none rest = rest
    first_refusal (some e) rest = some e

    unfoldable pub check_hops : List Bytes → UrlPolicy → Option UrlRefusal
    unfolding first_refusal
    check_hops [] pol = none
    check_hops (h ∷ hs) pol = first_refusal (refusal (check_url h pol)) (check_hops hs pol)

    -- No refusal is none.
    unfoldable pub check_redirect_chain : Bytes → List Bytes → UrlPolicy → Option UrlRefusal
    unfolding first_refusal
    check_redirect_chain initial hops pol =
        if leb_ℤ (pos 0) pol.max_redirects && ltb_ℤ pol.max_redirects (pos (length hops))
        then some too_many_redirects
        else first_refusal (refusal (check_url initial pol)) (check_hops hops pol)
