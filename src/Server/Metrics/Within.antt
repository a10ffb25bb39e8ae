-- ===== src/Server/Metrics/Within.antt =====
-- internal/storage/timerange.go: the host and the window of the rows that a query answers.
use sys_sentient.Prelude.{
  if◌then◌else◌, Bool-cases, length, take, All, All-keep_if, ℤ, ◌==◌, nat_key, string_key, ℕ, zero,
  suc, ◌+◌, ◌%◌, String, ◌≡◌, inl, inr, Bool, true, false, not, ◌&&◌, List, [], ◌∷◌, map,
  All-sort_by,
}
use sys_sentient.Models.{SystemState, Process}
use sys_sentient.Storage.Samples.{is_empty, restore_top_processes}
use sys_sentient.Storage.Rollup.{History, RollupKey, RollupRow, RollupPoint, point_of}
use sys_sentient.Storage.TimeRange.{
  Range, Rows, rows, invalid_range, query_failed, resolution_raw, query_range, get_rollups_range,
  lies_in, is_of_host, every, stride, window, tier_window, clamp_limit, is_inverted,
}
use sys_sentient.Server.Metrics.{Metrics, samples, buckets}

All-take {κ} : {A : Type 0} (P : A → Type κ) (n : ℕ) (xs : List A) → All P xs → All P (take n xs)
All-take P zero xs h = tt
All-take P (suc n) [] h = tt
All-take P (suc n) (x ∷ xs) h = (h.0, All-take P n xs h.1)

All-every {κ} :
    {A : Type 0} (P : A → Type κ) (n i : ℕ) (xs : List A) → All P xs → All P (every n i xs)
unfolding every
All-every P n i [] h = tt
All-every P n i (x ∷ xs) h = elim (Bool-cases (i % n == 0)) [
  | inl hit ↦ rw hit (h.0, All-every P n (i + 1) xs h.1)
  | inr miss ↦ rw miss (All-every P n (i + 1) xs h.1)
]

All-map {κ} :
    {A B : Type 0} (P : B → Type κ) (f : A → B) (xs : List A)
    → All (λ x. P (f x)) xs
    → All P (map f xs)
All-map P f [] h = tt
All-map P f (x ∷ xs) h = (h.0, All-map P f xs h.1)

-- Whichever branch a test takes.
pub if_any {κ} :
    {A : Type 0} (P : A → Type κ) (b : Bool) (x y : A) → P x → P y → P (if b then x else y)
if_any P true x y p q = p
if_any P false x y p q = q

abbrev pub AllRows : {A : Type 0} → (A → Type 0) → Rows A → Type 0
AllRows P (rows found) = All P found
AllRows P invalid_range = Unit
AllRows P query_failed = Unit

module _ {F : Type 0} where
  -- Rows of the host that was asked for, in a window.
  abbrev pub IsWithin : String → Range → SystemState F → Type 0
  IsWithin host r s = (lies_in r s.timestamp && is_of_host host s.host_id) ≡ true

  abbrev pub IsBucketWithin : String → String → Range → RollupPoint F → Type 0
  IsBucketWithin resolution host r p =
      (p.resolution == resolution && (lies_in r p.bucket && is_of_host host p.host_id)) ≡ true

  abbrev pub AllWithin : String → String → Range → Metrics F → Type 0
  AllWithin resolution host r (samples found) =
      (resolution ≡ resolution_raw) × All (IsWithin host r) found
  AllWithin resolution host r (buckets points) = All (IsBucketWithin resolution host r) points

  abbrev pub rows_of_metrics : Metrics F → ℕ
  rows_of_metrics (samples found) = length found
  rows_of_metrics (buckets points) = length points

  restored-IsWithin :
      (summary : List (Process F) → String) (host : String) (r : Range) (s : SystemState F)
      → IsWithin host r s
      → IsWithin host r (restore_top_processes summary s)
  unfolding restore_top_processes
  restored-IsWithin summary host r s h =
      if_any (IsWithin host r) (s.top_processes == "" && not (is_empty s.processes))
        (record s { top_processes = summary s.processes }) s h h

  All-map-IsWithin :
      (summary : List (Process F) → String) (host : String) (r : Range) (xs : List (SystemState F))
      → All (IsWithin host r) xs
      → All (λ s. IsWithin host r (restore_top_processes summary s)) xs
  All-map-IsWithin summary host r [] h = tt
  All-map-IsWithin summary host r (s ∷ xs) h =
      (restored-IsWithin summary host r s h.0, All-map-IsWithin summary host r xs h.1)

  pub query_range-IsWithin :
      (summary : List (Process F) → String) (up : Bool) (db : History F) (host : String) (r : Range)
      (limit : ℤ)
      → AllRows (IsWithin host r) (query_range summary up db host r limit)
  unfolding query_range window
  query_range-IsWithin summary up db host r limit =
      let P : SystemState F → Type 0 = IsWithin host r in
      let found = window db host r in
      let n = stride (length found) (clamp_limit limit) in
      if_any (AllRows P) (is_inverted r) invalid_range _ tt (
        if_any (AllRows P) (not up) query_failed _ tt (
          All-map P (restore_top_processes summary) _ (
            All-map-IsWithin summary host r _ (
              All-take P (clamp_limit limit) _ (
                All-every P n 0 found (
                  All-sort_by P (λ (s : SystemState F). s.timestamp) _
                    (All-keep_if
                      (λ (s : SystemState F). lies_in r s.timestamp && is_of_host host s.host_id)
                      db.metrics)))))))

  pub get_rollups_range-IsBucketWithin :
      (up : Bool) (db : History F) (resolution host : String) (r : Range) (limit : ℤ)
      → AllRows (IsBucketWithin resolution host r) (get_rollups_range up db resolution host r limit)
  unfolding get_rollups_range tier_window point_of
  get_rollups_range-IsBucketWithin up db resolution host r limit =
      let P : RollupPoint F → Type 0 = IsBucketWithin resolution host r in
      let Q : RollupKey × RollupRow F → Type 0 = λ e. P (point_of e) in
      if_any (AllRows P) (is_inverted r) invalid_range _ tt (
        if_any (AllRows P) (not up) query_failed _ tt (
          All-map P point_of _ (
            All-take Q (clamp_limit limit) _ (
              All-sort_by Q (λ (e : RollupKey × RollupRow F). e.0.bucket) _
                (All-keep_if
                  (λ (e : RollupKey × RollupRow F).
                    e.0.resolution == resolution
                    && (lies_in r e.0.bucket && is_of_host host e.0.host_id))
                  db.rollups)))))
