-- ===== src/DataServices/Recorder.antt =====
-- services/data_service_common.py: `OutboxEventRecorder` and `record_event_safely`.
use uwo_shared_platform.Prelude.{ℕ, String, Bool, true, false}
use uwo_shared_platform.Prelude.Keys.{string_eq}
use uwo_shared_platform.Prelude.Dict.{Dict}
use uwo_shared_platform.Errors.{Result, ok, err, make, ◌>>=◌}
use uwo_shared_platform.Env.{Env}
use uwo_shared_platform.DataServices.Outbox
use uwo_shared_platform.DataServices.Outbox.{OutboxRecord, record_valid}
use uwo_shared_platform.DataServices.Events.{PlatformEvent, event_eq, pending_record}

module _ ⦃env : Env⦄ (max_attempts : ℕ) where
  abbrev new_record : PlatformEvent → OutboxRecord PlatformEvent
  new_record event = record (pending_record event) { max_attempts = max_attempts }

  -- `OutboxEventRecorder.record`
  unfoldable pub record_event :
      PlatformEvent
      → Dict String (OutboxRecord PlatformEvent)
      → Result (OutboxRecord PlatformEvent × Dict String (OutboxRecord PlatformEvent))
  record_event event o = do
    r ← make (record_valid env.is_alnum (new_record event)) (new_record event)
    Outbox.enqueue env.is_alnum r o

  abbrev swallowed :
      Result (OutboxRecord PlatformEvent × Dict String (OutboxRecord PlatformEvent))
      → Dict String (OutboxRecord PlatformEvent)
      → Bool × Dict String (OutboxRecord PlatformEvent)
  swallowed (ok (r, o')) o = (true, o')
  swallowed (err e) o = (false, o)

  -- `record_event_safely` with that recorder
  unfoldable pub record_event_safely :
      PlatformEvent
      → Dict String (OutboxRecord PlatformEvent)
      → Bool × Dict String (OutboxRecord PlatformEvent)
  record_event_safely event o = swallowed (record_event event o) o
