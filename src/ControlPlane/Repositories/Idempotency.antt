-- ===== src/ControlPlane/Repositories/Idempotency.antt =====
-- `InMemoryIdempotencyRepository`.
use uwo_shared_platform.Prelude.{String, Option}
use uwo_shared_platform.Prelude.Keys.{string_eq, pair_eq}
use uwo_shared_platform.Prelude.Dict
use uwo_shared_platform.Errors.{Code, conflict}
use uwo_shared_platform.ControlPlane.World.{
  Db, FailurePoint, IdempotencyRecord, IdempotencyScope, record_key,
}
use uwo_shared_platform.ControlPlane.Action.{
  Act, return, gets, raise_when, write_db, trigger, ◌>>=◌, ◌>>◌,
}

abbrev pub get : IdempotencyScope → String → Act (Option IdempotencyRecord)
get scope key = gets (λ w. Dict.get w.db.idempotency (record_key scope key))

unfoldable pub store : IdempotencyRecord → Db → Db
store r db = record db { idempotency = Dict.set db.idempotency (record_key r.scope r.key) r }

unfoldable pub put : IdempotencyRecord → Act IdempotencyRecord
put r = do
  raise_when (← gets (λ w. Dict.contains w.db.idempotency (record_key r.scope r.key)))
      (conflict Code.idempotency_conflict)
  write_db (store r)
  trigger FailurePoint.idempotency_persistence
  return r
