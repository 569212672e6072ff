-- ===== src/Harness/SeqGuard.antt =====
-- internal/remotebridge/harness/harness.go: inboundSeqGuard, the sequence numbers of one stream.
pub mod Accepted
use platform_agent.Prelude.{
  zero, suc, Bool, true, false, ◌&&◌, List, [], ◌∷◌, if◌then◌else◌, Result, ok, err,
}
use platform_agent.Prelude.Int.{ℤ, pos, negsuc, leb_ℤ}

pub data SeqDefect : Type 0 where
  negative_frame_seq frame_seq_mode_regression frame_seq_replay : SeqDefect

pub record InboundSeqGuard : Type 0 where
  pub sequenced : Bool
  pub last : ℤ

abbrev pub fresh_guard : InboundSeqGuard
fresh_guard = record { sequenced = false; last = pos 0 }

unfoldable pub admit : InboundSeqGuard → ℤ → Result SeqDefect InboundSeqGuard
admit g (negsuc n) = err negative_frame_seq
admit g (pos zero) = if g.sequenced then err frame_seq_mode_regression else ok g
admit g (pos (suc n)) =
    if g.sequenced && leb_ℤ (pos (suc n)) g.last
    then err frame_seq_replay
    else ok (record { sequenced = true; last = pos (suc n) })

-- Every frame of a stream is admitted, each by the guard that the one before it leaves.
unfoldable pub admits : InboundSeqGuard → List ℤ → Bool
admits g [] = true
admits g (seq ∷ seqs) = elim (admit g seq) [ err defect ↦ false | ok next ↦ admits next seqs ]
