-- ===== src/Storage/Events.antt =====
-- internal/storage/sqlite.go: the tables alert_events, of alert transitions, and hosts, the inventory of
-- the fleet, an association list by the host's id. `up` says whether the statement succeeds.
use mathlib.Core.List.{reverse}
use sys_sentient.Prelude.{
  if◌then◌else◌, take, keep_if, ℤ, pos, pos_part, leb_ℤ, ◌==◌, nat_key, string_key, lookup, insert,
  Time, before, hour, ◌-◌, ◌*◌, String, Bool, not, Option, none, some, List, [], ◌∷◌, ◌++◌, sort_by,
}
use sys_sentient.Alerting.Rule.{Metric, AlertState, Severity}
use sys_sentient.Storage.SqlTime.{sql_time}
use sys_sentient.Storage.Accounts.{DbError, db_failed}

pub record AlertEvent (F : Type 0) : Type 0 where
  pub occurred_at : Time
  pub rule_id : String
  pub rule_name : String
  pub metric : Metric
  pub state : AlertState
  pub severity : Severity
  pub value : F
  pub threshold : F
  pub hostname : String
  pub host_id : String

pub record Host : Type 0 where
  pub host_id : String
  pub hostname : String
  pub first_seen : Time
  pub last_seen : Time
  pub agent_version : String

module _ {F : Type 0} where
  unfoldable pub save_alert_event :
      Bool → List (AlertEvent F) → AlertEvent F → List (AlertEvent F) × Option DbError
  save_alert_event up db event =
      if not up
      then (db, some db_failed)
      else (db ++ record event { occurred_at = sql_time event.occurred_at } ∷ [], none)

  -- Newest first, and of one instant the one that was inserted last.
  unfoldable pub get_recent_alert_events :
      Bool → List (AlertEvent F) → ℤ → Option (List (AlertEvent F))
  get_recent_alert_events up db limit =
      let most = if leb_ℤ limit (pos 0) then 50 else pos_part limit in
      if not up then none else some (take most (reverse (sort_by (λ e. e.occurred_at) db)))

  unfoldable pub prune_old_alert_events :
      Bool → List (AlertEvent F) → ℤ → Time → List (AlertEvent F) × Option DbError
  prune_old_alert_events up db hours now =
      if leb_ℤ hours (pos 0)
      then (db, none)
      else if not up
      then (db, some db_failed)
      else let cutoff = sql_time (now - pos_part hours * hour) in
        (keep_if (λ e. not (before e.occurred_at cutoff)) db, none)

-- A row that is there keeps the time at which the host was first seen.
abbrev pub seen_first : Option Host → Time → Time
seen_first none at = sql_time at
seen_first (some old) at = old.first_seen

unfoldable pub upsert_host :
    Bool
    → List (String × Host)
    → String
    → String
    → String
    → Time
    → List (String × Host) × Option DbError
upsert_host up db id hostname version seen_at =
    if id == "" then (db, none) else if not up then (db, some db_failed) else (
      insert id
          (record {
            host_id = id;
            hostname = hostname;
            first_seen = seen_first (lookup id db) seen_at;
            last_seen = sql_time seen_at;
            agent_version = version;
          })
          db,
      none,
    )

abbrev pub rows_of : List (String × Host) → List Host
rows_of [] = []
rows_of ((id, h) ∷ rest) = h ∷ rows_of rest

-- The host that was seen last comes first.
unfoldable pub list_hosts : Bool → List (String × Host) → Option (List Host)
list_hosts up db = if not up then none else some (reverse (sort_by (λ h. h.last_seen) (rows_of db)))
