-- ===== src/Domain/Cause.antt =====
-- internal/domain/verdict.go: the taxonomy of causes. The empty text is `no_cause`, and a text
-- outside the taxonomy is `other_cause`.
pub mod Hierarchy
use Prim.Native.String.{◌++◌}
use whymiss.Prelude.{ℕ, ◌==◌, Bool, true, false, ◌||◌, List, [], ◌∷◌, String, if◌then◌else◌}
use whymiss.Prelude.Text.{str_eq, has_prefix}

pub data CauseId : Type 0 where
  proposer_missed late_block payload_late inclusion_failure p2p_degraded cl_slow el_slow : CauseId
  el_slow_syncing el_slow_snapshot el_slow_pruning el_slow_disk_saturation : CauseId
  vc_disconnected vc_slow host_disk_io host_cpu_steal host_memory_pressure : CauseId
  host_clock_drift insufficient_data no_rule_matched no_cause : CauseId
  other_cause : String → CauseId

unfoldable pub cause_name : CauseId → String
cause_name proposer_missed = "network.proposer_missed"
cause_name late_block = "network.late_block"
cause_name payload_late = "network.payload_late"
cause_name inclusion_failure = "network.inclusion_failure"
cause_name p2p_degraded = "local.p2p_degraded"
cause_name cl_slow = "local.cl_slow"
cause_name el_slow = "local.el_slow"
cause_name el_slow_syncing = "local.el_slow.syncing"
cause_name el_slow_snapshot = "local.el_slow.snapshot"
cause_name el_slow_pruning = "local.el_slow.pruning"
cause_name el_slow_disk_saturation = "local.el_slow.disk_saturation"
cause_name vc_disconnected = "local.vc_disconnected"
cause_name vc_slow = "local.vc_slow"
cause_name host_disk_io = "local.host.disk_io"
cause_name host_cpu_steal = "local.host.cpu_steal"
cause_name host_memory_pressure = "local.host.memory_pressure"
cause_name host_clock_drift = "local.host.clock_drift"
cause_name insufficient_data = "unknown.insufficient_data"
cause_name no_rule_matched = "unknown.no_rule_matched"
cause_name no_cause = ""
cause_name (other_cause s) = s

unfoldable pub cause_ids : List CauseId
cause_ids =
    proposer_missed ∷ late_block ∷ payload_late ∷ inclusion_failure ∷ p2p_degraded ∷ cl_slow
    ∷ el_slow ∷ el_slow_syncing ∷ el_slow_snapshot ∷ el_slow_pruning ∷ el_slow_disk_saturation
    ∷ vc_disconnected ∷ vc_slow ∷ host_disk_io ∷ host_cpu_steal ∷ host_memory_pressure
    ∷ host_clock_drift ∷ insufficient_data ∷ no_rule_matched ∷ []

unfoldable pub cause_valid : CauseId → Bool
cause_valid no_cause = false
cause_valid (other_cause _) = false
cause_valid _ = true

abbrev tag : CauseId → ℕ
tag proposer_missed = 0
tag late_block = 1
tag payload_late = 2
tag inclusion_failure = 3
tag p2p_degraded = 4
tag cl_slow = 5
tag el_slow = 6
tag el_slow_syncing = 7
tag el_slow_snapshot = 8
tag el_slow_pruning = 9
tag el_slow_disk_saturation = 10
tag vc_disconnected = 11
tag vc_slow = 12
tag host_disk_io = 13
tag host_cpu_steal = 14
tag host_memory_pressure = 15
tag host_clock_drift = 16
tag insufficient_data = 17
tag no_rule_matched = 18
tag no_cause = 19
tag (other_cause _) = 20

unfoldable pub cause_eq : CauseId → CauseId → Bool
cause_eq (other_cause s) (other_cause t) = str_eq s t
cause_eq a b = tag a == tag b

unfoldable pub is_sub_cause_of : CauseId → CauseId → Bool
unfolding cause_eq cause_name
is_sub_cause_of c parent =
    if cause_eq c parent || cause_eq parent no_cause
    then false
    else has_prefix (cause_name c) (cause_name parent ++ ".")
