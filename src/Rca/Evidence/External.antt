-- ===== src/Rca/Evidence/External.antt =====
-- What the rules of internal/rca/rules that blame the network have checked.
use whymiss.Prelude.{true, some, ◌≡◌, ◌⊎◌, arith}
use whymiss.Prelude.Float.{FloatOps}
use whymiss.Domain.Timeline.{Timeline}
use whymiss.Domain.Verdict.{Verdict}
use whymiss.Domain.Cause.{
  CauseId, insufficient_data, proposer_missed, late_block, payload_late, p2p_degraded,
}
use whymiss.Rca.Config.{Config}
use whymiss.Rca.Facts.{propagation_overspent}
use whymiss.Rca.Rules
use whymiss.Rca.Rules.NetworkLateBlock.{deviation}
use whymiss.Rca.Evidence.{IsSkippedSlot, IsPayloadLate, ArrivedLate, IsLateEverywhere, IsLateHere}

-- Which cause a rule names, or that the data was not enough.
abbrev pub Names : CauseId → CauseId → Type 0 → Type 0
Names got cause evidence = (got ≡ insufficient_data) ⊎ ((got ≡ cause) × evidence)

module _ {F : Type 0} (fl : FloatOps F) (tl : Timeline F) (cfg : Config F) where
  pub proposer_missed-evidence :
      (v : Verdict F)
      → Rules.ProposerMissed.evaluate fl tl cfg ≡ some v
      → Names v.cause proposer_missed (IsSkippedSlot tl)
  unfolding Rules.ProposerMissed.evaluate Rules.ProposerMissed.exonerated
      Rules.ProposerMissed.ambiguous
  proposer_missed-evidence v h = ground arith

  pub overspent-ArrivedLate : propagation_overspent fl tl cfg ≡ true → ArrivedLate fl tl cfg
  unfolding propagation_overspent
  overspent-ArrivedLate h = record {
    measured = ground arith;
    overspent = ground arith;
    charged = ground arith;
  }

  pub late_block-evidence :
      (v : Verdict F)
      → Rules.NetworkLateBlock.evaluate fl tl cfg ≡ some v
      → Names v.cause late_block (IsLateEverywhere fl tl cfg)
  unfolding Rules.NetworkLateBlock.evaluate Rules.NetworkLateBlock.no_baseline
      Rules.NetworkLateBlock.network_wide
  late_block-evidence v h = ground (arith, overspent-ArrivedLate)

  pub p2p_degraded-evidence :
      (v : Verdict F)
      → Rules.P2pDegraded.evaluate fl tl cfg ≡ some v
      → Names v.cause p2p_degraded (IsLateHere fl tl cfg)
  unfolding Rules.P2pDegraded.evaluate Rules.P2pDegraded.degraded
  p2p_degraded-evidence v h = ground (arith, overspent-ArrivedLate)

  pub payload_late-evidence :
      (v : Verdict F)
      → Rules.PayloadLate.evaluate fl tl cfg ≡ some v
      → Names v.cause payload_late (IsPayloadLate tl)
  unfolding Rules.PayloadLate.evaluate Rules.PayloadLate.late
  payload_late-evidence v h = ground arith
