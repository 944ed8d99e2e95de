-- ===== src/Fleet/Breaker.antt =====
-- sidecar/circuit_breaker.py, and its callers `_cb_cooldowns` and `_cb_trip` of sidecar/runner.py
-- where they read the database themselves. A call of the breaker is given whether a database is
-- configured, whether its connection is served, and the times in seconds that it reads: the
-- process's clock for the end of a cooldown, the database's for what is in cooldown.
use fuko_pr.Prelude.{
  ℕ, ◌+◌, max, String, Bool, ◌&&◌, Option, none, some, List, [], ◌∷◌, map, ltb, put, take_text,
  text_eq, if◌then◌else◌,
}
use fuko_pr.Fleet.Failover.{Trip}

-- A row of provider_cooldown, under its provider.
pub record Cooldown : Type 0 where
  pub until : ℕ
  pub tripped_at : ℕ
  pub reason : String

abbrev pub Cooldowns : Type 0
Cooldowns = List (String × Cooldown)

-- What a call meets.
pub record Call : Type 0 where
  pub enabled : Bool
  pub served : Bool
  pub now : ℕ
  pub db_now : ℕ

-- SELECT provider, cooldown_until FROM provider_cooldown WHERE cooldown_until > now()
unfoldable pub open_rows : ℕ → Cooldowns → List (String × ℕ)
open_rows now [] = []
open_rows now ((p, c) ∷ rows) =
    let rest = open_rows now rows in if ltb now c.until then (p, c.until) ∷ rest else rest

-- `get_cooldowns`, where `none` is what the connection raises.
unfoldable pub get_cooldowns : Call → Cooldowns → Option (List (String × ℕ))
unfolding open_rows
get_cooldowns call rows =
    if call.enabled
    then (if call.served then some (open_rows call.db_now rows) else none)
    else some []

abbrev pub providers_of : Option (List (String × ℕ)) → List String
providers_of none = []
providers_of (some found) = map (λ e. e.0) found

-- `_cb_cooldowns`
unfoldable pub cb_cooldowns : Call → Cooldowns → List String
unfolding get_cooldowns
cb_cooldowns call rows = providers_of (get_cooldowns call rows)

-- The upsert of `trip`
unfoldable pub upsert : Call → Trip → Cooldowns → Cooldowns
unfolding put take_text
upsert call t rows = put rows t.provider (record {
  until = call.now + max 1 t.cooldown_seconds;
  tripped_at = call.db_now;
  reason = take_text 500 t.reason;
})

-- `_cb_trip`: a call that cannot be made changes nothing, and raises nothing.
unfoldable pub cb_trip : Call → Trip → Cooldowns → Cooldowns
unfolding upsert
cb_trip call t rows = if call.enabled && call.served then upsert call t rows else rows

-- The trips of one failover, each at its own call.
unfoldable pub cb_trips : List (Call × Trip) → Cooldowns → Cooldowns
unfolding cb_trip
cb_trips [] rows = rows
cb_trips ((call, t) ∷ ts) rows = cb_trips ts (cb_trip call t rows)
