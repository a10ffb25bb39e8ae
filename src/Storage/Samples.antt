-- ===== src/Storage/Samples.antt =====
-- internal/storage/sqlite.go: the table metrics, one row for each sample. A sample is stored with its
-- time cut to milliseconds and with no summary of its processes, which a read derives again. `bad` says
-- which samples cannot be encoded or inserted, `summary` is `FormatTopProcesses`.
use mathlib.Core.List.{reverse}
use sys_sentient.Prelude.{
  if◌then◌else◌, is_some, take, keep_if, ℤ, pos, pos_part, ltb_ℤ, leb_ℤ, ◌==◌, nat_key, string_key,
  ℕ, ◌+◌, String, Bool, true, false, not, ◌&&◌, Option, none, some, List, [], ◌∷◌, ◌++◌, map,
  sort_by,
}
use sys_sentient.Models.{SystemState, Process}
use sys_sentient.Storage.SqlTime.{sql_time}
use sys_sentient.Storage.Accounts.{DbError, db_failed}

abbrev pub is_empty : {A : Type 0} → List A → Bool
is_empty [] = true
is_empty (x ∷ xs) = false

module _ {F : Type 0} where
  abbrev pub stored_sample : SystemState F → SystemState F
  stored_sample m = record m { timestamp = sql_time m.timestamp; top_processes = "" }

  unfoldable pub restore_top_processes : (List (Process F) → String) → SystemState F → SystemState F
  restore_top_processes summary m =
      if m.top_processes == "" && not (is_empty m.processes)
      then record m { top_processes = summary m.processes }
      else m

  unfoldable pub save_sample :
      (SystemState F → Bool)
      → List (SystemState F)
      → SystemState F
      → List (SystemState F) × Option DbError
  save_sample bad db m = if bad m then (db, some db_failed) else (db ++ stored_sample m ∷ [], none)

  -- The loop of SaveBatch: a sample that fails is passed over.
  unfoldable pub save_each :
      (SystemState F → Bool)
      → List (SystemState F)
      → List (SystemState F)
      → List (SystemState F) × ℕ
  unfolding save_sample
  save_each bad db [] = (db, 0)
  save_each bad db (m ∷ rest) =
      let (db', refused) = save_sample bad db m in
      let (db'', stored) = save_each bad db' rest in
      (db'', if is_some refused then stored else stored + 1)

  -- How many were stored, or none where the transaction cannot begin or commit.
  unfoldable pub save_batch :
      (ℕ → Bool)
      → (SystemState F → Bool)
      → List (SystemState F)
      → List (SystemState F)
      → List (SystemState F) × Option ℕ
  unfolding save_each
  save_batch up bad db samples =
      if is_empty samples
      then (db, some 0)
      else if not (up 0 && up 1)
      then (db, none)
      else let (db', stored) = save_each bad db samples in (db', some stored)

  -- Newest first.
  unfoldable pub newest : List (SystemState F) → List (SystemState F)
  newest db = reverse (sort_by (λ s. s.timestamp) db)

  unfoldable pub get_recent :
      Bool → (List (Process F) → String) → List (SystemState F) → ℤ → Option (List (SystemState F))
  unfolding newest restore_top_processes
  get_recent up summary db limit =
      if ltb_ℤ limit (pos 1)
      then some []
      else if not up
      then none
      else some (map (restore_top_processes summary) (take (pos_part limit) (newest db)))

  unfoldable pub get_recent_for_host :
      Bool
      → (List (Process F) → String)
      → List (SystemState F)
      → String
      → ℤ
      → Option (List (SystemState F))
  unfolding get_recent
  get_recent_for_host up summary db host limit =
      if host == ""
      then get_recent up summary db limit
      else if not up
      then none
      else let most = if leb_ℤ limit (pos 0) then 50 else pos_part limit in
        some (
          map (restore_top_processes summary)
            (take most (newest (keep_if (λ s. s.host_id == host) db))))
