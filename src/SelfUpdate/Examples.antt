-- ===== src/SelfUpdate/Examples.antt =====
-- The update policies at concrete inputs.
use platform_agent.Prelude.{
  ◌≡◌, ◌↔◌, refl, Bool, true, false, Option, none, some, [], ◌∷◌, ok, arith,
}
use platform_agent.Prelude.Int.{pos, add64, wrap64}
use platform_agent.Bytes.{Bytes, beq}
use platform_agent.Bytes.Text.{
  codes, split, is_digit, is_upper, is_lower, is_ascii, ascii_lower_byte,
}
use platform_agent.Bytes.Trim.{trim_space}
use platform_agent.Bytes.Decimal.{decimal_from}
use platform_agent.SelfUpdate.Version.{
  allowed, compare, compare_numeric_ident, cmp_uint, parse_version, evaluate_version_policy,
  seen_and_decide, decide_version, below_seen, not_above_seen, parse_trimmed, parse_build,
  parse_rest, version_of, parse_core, parse_uint, cut_at, valid_numeric_core, valid_dot_separated,
  all_idents, valid_ident, or_else, compare_prerelease, compare_idents, compare_ident, by_kind,
  is_numeric_ident, compare_bytes,
}
use platform_agent.SelfUpdate.Version.Policy.{IsUpgrade, evaluate_version_policy-IsUpgrade}
use platform_agent.SelfUpdate.Url.{
  Url, UrlPolicy, check_url, check_parsed, check_host, is_forbidden_ip_literal_host,
  is_dotted_number, host_allowed, any_host, equal_fold, fold_ascii, lower,
}
use platform_agent.SelfUpdate.Download.{Reply, download, follow, check_redirect, copy_capped}
use platform_agent.SelfUpdate.Download.Completed.{IsComplete, download-IsComplete}
use platform_agent.SelfUpdate.Signer.{tier_trusted}
use platform_agent.SelfUpdate.Preflight.{PreflightInput, proceed, evaluate_preflight}
use platform_agent.SelfUpdate.Preflight.Proceeds.{IsClear, evidence_of, evaluate_preflight-IsClear}

first_allowed : evaluate_version_policy (codes "v1.2.3-rc.9") (codes "1.2.3-rc.10") [] ≡ allowed
unfolding evaluate_version_policy seen_and_decide decide_version below_seen not_above_seen
    parse_version trim_space parse_trimmed parse_build parse_rest version_of parse_core parse_uint
    cut_at valid_numeric_core valid_dot_separated all_idents valid_ident split decimal_from compare
    cmp_uint or_else compare_prerelease compare_idents compare_ident by_kind is_numeric_ident
    compare_numeric_ident compare_bytes is_digit is_upper is_lower
first_allowed = refl

second_allowed :
    evaluate_version_policy (codes "1.2.3-rc.10") (codes "1.2.3") (codes "1.2.3-rc.10\n") ≡ allowed
unfolding evaluate_version_policy seen_and_decide decide_version below_seen not_above_seen
    parse_version trim_space parse_trimmed parse_build parse_rest version_of parse_core parse_uint
    cut_at valid_numeric_core valid_dot_separated all_idents valid_ident split decimal_from compare
    cmp_uint or_else compare_prerelease compare_idents compare_ident by_kind is_numeric_ident
    compare_numeric_ident compare_bytes is_digit is_upper is_lower
second_allowed = refl

evaluate_version_policy-IsUpgrade_example :
    (evaluate_version_policy (codes "v1.2.3-rc.9") (codes "1.2.3-rc.10") [] ≡ allowed)
    ↔ IsUpgrade (codes "v1.2.3-rc.9") (codes "1.2.3-rc.10") []
evaluate_version_policy-IsUpgrade_example =
    evaluate_version_policy-IsUpgrade (codes "v1.2.3-rc.9") (codes "1.2.3-rc.10") []

-- A parser of one address, and a test for one address literal.
abbrev parsed : Url
parsed = record {
  scheme = codes "https";
  has_user = false;
  opaque = [];
  hostname = codes "GitHub.com";
  port = codes "443";
  path = codes "/a.exe";
}

abbrev toy_parse : Bytes → Option Url
toy_parse s = some parsed

abbrev no_ip : Bytes → Bool
no_ip s = false

abbrev hosts : UrlPolicy
hosts = record { allowed_hosts = codes " github.com" ∷ []; max_redirects = pos 2 }

abbrev address : Bytes
address = codes "https://GitHub.com:443/a.exe"

url_accepted :
    check_url no_ip toy_parse address hosts
    ≡ ok (record {
      scheme = codes "https";
      host = codes "github.com";
      port = codes "443";
      path = codes "/a.exe";
      raw = address;
    })
unfolding check_url check_parsed check_host is_forbidden_ip_literal_host is_dotted_number
    host_allowed any_host equal_fold fold_ascii lower trim_space beq is_ascii is_digit is_upper
    ascii_lower_byte
url_accepted = refl

-- One redirect, and a body of three bytes.
abbrev answer : Reply
answer = record { status = pos 200; body = 1 ∷ 2 ∷ 3 ∷ []; fails = false }

download_done :
    download no_ip toy_parse hosts address (pos 3) (address ∷ []) (some answer)
    ≡ record { written = 1 ∷ 2 ∷ 3 ∷ []; error = none }
unfolding download follow check_redirect copy_capped add64 wrap64 check_url check_parsed check_host
    is_forbidden_ip_literal_host is_dotted_number host_allowed any_host equal_fold fold_ascii lower
    is_ascii trim_space ascii_lower_byte beq is_digit
download_done = refl

download-IsComplete_example :
    (download no_ip toy_parse hosts address (pos 3) (address ∷ []) (some answer)
      ≡ record { written = 1 ∷ 2 ∷ 3 ∷ []; error = none })
    ↔ IsComplete no_ip toy_parse hosts address 3 (address ∷ []) (some answer) (1 ∷ 2 ∷ 3 ∷ [])
download-IsComplete_example =
    download-IsComplete no_ip toy_parse hosts address 3 (address ∷ []) (some answer)
      (1 ∷ 2 ∷ 3 ∷ []) (omega arith)

abbrev identity : Bytes → Bytes
identity s = s

abbrev update : PreflightInput
update = record {
  platform = codes "Windows";
  current_version = codes "v1.2.3-rc.9";
  max_seen_version = [];
  payload = record {
    release_id = codes "r";
    channel = [];
    ring = [];
    target_version = codes "1.2.3-rc.10";
    binary_url = address;
    claimed_sha256 = codes "00";
    claimed_signer_thumbprint = [];
    signing_tier = tier_trusted;
    max_bytes = pos 0;
    claimed_accept_lab_only = false;
  };
  url_policy = hosts;
  tier_policy = record { allow_lab_only = false; domain_joined = true };
}

evaluate_preflight-IsClear_example :
    (evaluate_preflight no_ip toy_parse update ≡ proceed (evidence_of no_ip toy_parse update)) ↔ (
      IsClear no_ip toy_parse update
      × (evidence_of no_ip toy_parse update ≡ evidence_of no_ip toy_parse update))
evaluate_preflight-IsClear_example =
    evaluate_preflight-IsClear no_ip toy_parse update (evidence_of no_ip toy_parse update)
