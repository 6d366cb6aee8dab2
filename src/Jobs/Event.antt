-- ===== src/Jobs/Event.antt =====
-- core/jobs/src/lib.rs: the events of the job scheduler. A failure that the source prints in an event is
-- the failure itself.
use pdf_platform.Jobs.Persistence.{EncodeFailure}
use pdf_platform.Common.{ℕ, Bool}
use Prim.Native.String.{String}

-- The progress event, which only an executor sends, is left out.
pub data JobEvent : Type 0 where
  queued : ℕ → JobEvent
  started : ℕ → JobEvent
  completed : ℕ → JobEvent
  failed : ℕ → String → JobEvent
  cancelled : ℕ → JobEvent
  persistence_failed : EncodeFailure → JobEvent
  worker_crashed : ℕ → Bool → String → JobEvent
