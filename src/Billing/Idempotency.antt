-- ===== src/Billing/Idempotency.antt =====
-- `InMemoryIdempotencyRepository`.
use uwo_shared_platform.Prelude.{String, Option}
use uwo_shared_platform.Prelude.Keys.{string_eq, pair_eq}
use uwo_shared_platform.Prelude.Dict
use uwo_shared_platform.Errors.{Code, conflict}
use uwo_shared_platform.Billing.World.{
  Db, FailurePoint, IdempotencyScope, IdempotencyRecord, record_key,
}
use uwo_shared_platform.Billing.Action.{
  Act, return, gets, raise_when, write_db, trigger, ◌>>=◌, ◌>>◌,
}

unfoldable pub find : Db → IdempotencyScope → String → Option IdempotencyRecord
find db scope key = Dict.get db.idempotency (record_key scope key)

abbrev pub get : IdempotencyScope → String → Act (Option IdempotencyRecord)
get scope key = gets (λ w. find w.db scope key)

unfoldable pub store : IdempotencyRecord → Db → Db
store r db = record db { idempotency = Dict.set db.idempotency (record_key r.scope r.key) r }

unfoldable pub put : IdempotencyRecord → Act IdempotencyRecord
unfolding store
put r = do
  raise_when (← gets (λ w. Dict.contains w.db.idempotency (record_key r.scope r.key)))
      (conflict Code.idempotency_conflict)
  write_db (store r)
  trigger FailurePoint.idempotency_write
  return r
