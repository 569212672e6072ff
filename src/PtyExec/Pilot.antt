-- ===== src/PtyExec/Pilot.antt =====
-- internal/remotebridge/ptyexec/argpolicy.go: the policies of the five pilot commands.
pub mod Hosts
use platform_agent.Prelude.{List, [], ◌∷◌, map}
use platform_agent.Prelude.Int.{pos}
use platform_agent.Bytes.{Bytes}
use platform_agent.Bytes.Text.{codes}
use platform_agent.PtyExec.ArgPolicy.{
  CommandSpec, operand_none, operand_required_host, ascii_lower, int_range, one_of,
}

-- The set's members, lower-cased.
unfoldable pub string_set : List Bytes → List Bytes
unfolding ascii_lower
string_set = map ascii_lower

unfoldable pub hostname_policy : CommandSpec
hostname_policy = record {
  valueless_flags = [];
  value_flags = [];
  forbidden_flags = [];
  operand_rule = operand_none;
  max_operands = 0;
}

unfoldable pub whoami_policy : CommandSpec
unfolding string_set one_of ascii_lower
whoami_policy = record {
  valueless_flags = string_set (
      codes "/all"
      ∷ codes "/groups"
      ∷ codes "/priv"
      ∷ codes "/user"
      ∷ codes "/fqdn"
      ∷ codes "/upn"
      ∷ codes "/logonid"
      ∷ codes "/nh"
      ∷ []);
  value_flags = (codes "/fo", one_of (codes "csv" ∷ codes "table" ∷ codes "list" ∷ [])) ∷ [];
  forbidden_flags = [];
  operand_rule = operand_none;
  max_operands = 0;
}

unfoldable pub netstat_policy : CommandSpec
unfolding string_set one_of ascii_lower
netstat_policy = record {
  valueless_flags = string_set (
      codes "-a"
      ∷ codes "-n"
      ∷ codes "-o"
      ∷ codes "-r"
      ∷ codes "-s"
      ∷ codes "-e"
      ∷ codes "-b"
      ∷ codes "-q"
      ∷ codes "-f"
      ∷ codes "-y"
      ∷ []);
  value_flags =
      (
        codes "-p",
        one_of (
            codes "tcp"
            ∷ codes "udp"
            ∷ codes "tcpv6"
            ∷ codes "udpv6"
            ∷ codes "ip"
            ∷ codes "ipv6"
            ∷ codes "icmp"
            ∷ codes "icmpv6"
            ∷ []),
      )
      ∷ [];
  forbidden_flags = [];
  operand_rule = operand_none;
  max_operands = 0;
}

unfoldable pub ping_policy : CommandSpec
unfolding string_set ascii_lower
ping_policy = record {
  valueless_flags = string_set (codes "-a" ∷ codes "-4" ∷ codes "-6" ∷ codes "-f" ∷ []);
  value_flags =
      (codes "-n", int_range (pos 1) (pos 10))
      ∷ (codes "-w", int_range (pos 1) (pos 60000))
      ∷ (codes "-l", int_range (pos 1) (pos 8192))
      ∷ (codes "-i", int_range (pos 1) (pos 255))
      ∷ [];
  forbidden_flags = string_set (codes "-t" ∷ []);
  operand_rule = operand_required_host;
  max_operands = 1;
}

unfoldable pub tracert_policy : CommandSpec
unfolding string_set ascii_lower
tracert_policy = record {
  valueless_flags = string_set (codes "-d" ∷ codes "-4" ∷ codes "-6" ∷ []);
  value_flags =
      (codes "-h", int_range (pos 1) (pos 255)) ∷ (codes "-w", int_range (pos 1) (pos 60000)) ∷ [];
  forbidden_flags = [];
  operand_rule = operand_required_host;
  max_operands = 1;
}

unfoldable pub pilot_arg_policies : List (Bytes × CommandSpec)
pilot_arg_policies =
    (codes "hostname", hostname_policy)
    ∷ (codes "whoami", whoami_policy)
    ∷ (codes "netstat", netstat_policy)
    ∷ (codes "ping", ping_policy)
    ∷ (codes "tracert", tracert_policy)
    ∷ []
