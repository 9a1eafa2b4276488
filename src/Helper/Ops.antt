-- ===== src/Helper/Ops.antt =====
-- The op tokens of daemon/internal/shared/proto/ops.go, the codes of
-- daemon/internal/shared/proto/codes.go and the capabilities that ops need
-- (daemon/internal/helper/ops/required_caps.go).
use text.Mathlib.Text.{◌==◌ as str_eq}
use host_health_mcp.Base.{
  String, Bool, true, false, Option, none, some, List, [], ◌∷◌, if◌then◌else◌,
}

abbrev pub all_ops : List String
all_ops =
    "read_audit_status" ∷ "read_aide_summary" ∷ "read_reboot_marker" ∷ "smart_summary"
    ∷ "mdraid_detail" ∷ "lvm_report" ∷ "zpool_status" ∷ "btrfs_scrub" ∷ "postqueue"
    ∷ "wireguard_show" ∷ "apt_pending" ∷ "needrestart" ∷ "journal_query" ∷ "nft_table_counts"
    ∷ "fail2ban_status" ∷ "ssh_journal_counts" ∷ "systemd_timer_last_trigger" ∷ "rkhunter_summary"
    ∷ "unattended_upgrades_status" ∷ "firewall_inspect" ∷ "firewall_lookup" ∷ "dovecot_status"
    ∷ "nginx_apache_status" ∷ []

unfoldable pub mem_op : String → List String → Bool
mem_op op [] = false
mem_op op (k ∷ ks) = if str_eq k op then true else mem_op op ks

unfoldable pub is_known_op : String → Bool
unfolding mem_op
is_known_op op = mem_op op all_ops

-- `CodeBadOp` and its siblings
pub data Code : Type 0 where
  bad_op bad_param tool_missing tool_failed output_truncated deadline internal : Code

abbrev required_caps : List (String × String)
required_caps =
    ("zpool_status", "CAP_SYS_ADMIN")
    ∷ ("btrfs_scrub", "CAP_SYS_ADMIN")
    ∷ ("smart_summary", "CAP_SYS_RAWIO")
    ∷ ("read_audit_status", "CAP_AUDIT_CONTROL")
    ∷ ("wireguard_show", "CAP_NET_ADMIN")
    ∷ ("firewall_inspect", "CAP_NET_ADMIN")
    ∷ ("firewall_lookup", "CAP_NET_ADMIN")
    ∷ []

find_cap : String → List (String × String) → Option String
find_cap op [] = none
find_cap op ((o, c) ∷ rest) = if str_eq o op then some c else find_cap op rest

unfoldable pub required_cap : String → Option String
unfolding find_cap
required_cap op = find_cap op required_caps
