-- ===== src/Billing/Usage.antt =====
-- `InMemoryUsageEventRepository`.
use uwo_shared_platform.Prelude.{String, Option}
use uwo_shared_platform.Prelude.Keys.{string_eq}
use uwo_shared_platform.Prelude.Dict
use uwo_shared_platform.Errors.{Code, conflict}
use uwo_shared_platform.Contracts.Billing.{UsageEvent}
use uwo_shared_platform.Billing.World.{Db, FailurePoint}
use uwo_shared_platform.Billing.Action.{
  Act, return, gets, raise_when, write_db, trigger, ◌>>=◌, ◌>>◌,
}

unfoldable pub put : UsageEvent → Db → Db
put u db = record db { usage = Dict.set db.usage u.usage_event_id u }

unfoldable pub append : UsageEvent → Act UsageEvent
unfolding put
append u = do
  raise_when (← gets (λ w. Dict.contains w.db.usage u.usage_event_id))
      (conflict Code.usage_event_exists)
  write_db (put u)
  trigger FailurePoint.usage_write
  return u

abbrev pub get : String → Act (Option UsageEvent)
get usage_event_id = gets (λ w. Dict.get w.db.usage usage_event_id)
