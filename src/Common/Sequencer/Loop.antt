-- ===== src/Common/Sequencer/Loop.antt =====
-- The loop of SequencerImpl::run() ends: sequencer_impl.cc.
use nighthawk.Base.Result.{Result}
use nighthawk.Common.RateLimiter.{RateLimiter}
use nighthawk.Common.Sequencer.{Sequencer}
