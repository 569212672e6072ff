-- ===== src/SelfUpdate/Download.antt =====
-- internal/selfupdate/download.go: Download, from the policy to the capped copy. What the HTTP client and
-- the server do is given: the redirects that are about to be followed, and the reply at their end.
pub mod Completed
use platform_agent.Prelude.{
  ℕ, suc, Bool, true, false, not, ◌&&◌, Option, none, some, List, [], ◌∷◌, length, take, leb,
  if◌then◌else◌,
}
use platform_agent.Prelude.Int.{ℤ, pos, pos_part, leb_ℤ, ltb_ℤ, add64, equal_ℤ}
use platform_agent.Bytes.{Bytes}
use platform_agent.SelfUpdate.Url.{
  UrlPolicy, CanonicalUrl, Url, UrlRefusal, too_many_redirects, check_url, refusal,
}

-- The bytes that the body holds, and whether reading or writing fails after them.
pub record Reply : Type 0 where
  pub status : ℤ
  pub body : Bytes
  pub fails : Bool

pub data DownloadError : Type 0 where
  negative_redirect_cap no_byte_cap transport_error non_200_status : DownloadError
  body_too_large body_failed : DownloadError
  url_rejected redirect_rejected : UrlRefusal → DownloadError

pub record Downloaded : Type 0 where
  pub written : Bytes
  pub error : Option DownloadError

abbrev pub stopped : DownloadError → Downloaded
stopped e = record { written = []; error = some e }

-- A copy through a capReader with so much remaining: what is written, and whether the cap was reached.
-- A read that ends the body at the cap is over the cap all the same.
unfoldable pub copy_capped : ℤ → Bytes → Bytes × Bool
copy_capped remaining body =
    if leb_ℤ remaining (pos 0)
    then ([], true)
    else if leb_ℤ remaining (pos (length body))
    then (take (pos_part remaining) body, true)
    else (body, false)

after_copy : ℤ → Bool → Bytes × Bool → Downloaded
after_copy max_bytes fails (written, over) =
    if over
    then record { written = written; error = some body_too_large }
    else if fails
    then record { written = written; error = some body_failed }
    else record { written = written; error = none }

module _ (parse_ip : Bytes → Bool) (url_parse : Bytes → Option Url) where
  -- The closure that the client calls before it follows a redirect, with the count of the requests made.
  unfoldable pub check_redirect : UrlPolicy → ℕ → Bytes → Option UrlRefusal
  check_redirect pol via raw =
      if leb_ℤ (pos 0) pol.max_redirects && ltb_ℤ pol.max_redirects (pos via)
      then some too_many_redirects
      else refusal parse_ip url_parse (check_url parse_ip url_parse raw pol)

  unfoldable pub follow : UrlPolicy → ℕ → List Bytes → Option UrlRefusal
  follow pol via [] = none
  follow pol via (hop ∷ hops) =
      let rest = follow pol (suc via) hops in
      elim (check_redirect pol via hop) [ some e ↦ some e | none ↦ rest ]

  fetched : ℤ → Option Reply → Downloaded
  unfolding after_copy
  fetched max_bytes none = stopped transport_error
  fetched max_bytes (some reply) =
      if not (equal_ℤ reply.status (pos 200))
      then stopped non_200_status
      else after_copy max_bytes reply.fails (copy_capped (add64 max_bytes (pos 1)) reply.body)

  requested : ℤ → Option Reply → Option UrlRefusal → Downloaded
  unfolding fetched
  requested max_bytes reply (some e) = stopped (redirect_rejected e)
  requested max_bytes reply none = fetched max_bytes reply

  allowed : UrlPolicy → ℤ → List Bytes → Option Reply → Option UrlRefusal → Downloaded
  unfolding requested
  allowed pol max_bytes hops reply (some e) = stopped (url_rejected e)
  allowed pol max_bytes hops reply none =
      if leb_ℤ max_bytes (pos 0)
      then stopped no_byte_cap
      else requested max_bytes reply (follow pol 1 hops)

  unfoldable pub download : UrlPolicy → Bytes → ℤ → List Bytes → Option Reply → Downloaded
  unfolding allowed
  download pol raw max_bytes hops reply =
      if ltb_ℤ pol.max_redirects (pos 0)
      then stopped negative_redirect_cap
      else allowed pol max_bytes hops reply
          (refusal parse_ip url_parse (check_url parse_ip url_parse raw pol))
