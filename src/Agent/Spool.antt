-- ===== src/Agent/Spool.antt =====
-- internal/agent/spool.go: the durable buffer of samples, down to the bytes of its file.
-- The lock is held by every method, so a method is one step. Each file operation may fail, as the
-- method's `Faults` say. encoding/json is a parameter.
pub mod Calls
pub mod Format
pub mod Buffer
use sys_sentient.Agent.SpoolFile.{
  Codec, newline, ends_with_newline, is_terminated, bytes_of, contents, encode_lines,
}
use sys_sentient.Prelude.{
  ltb, leb, if◌then◌else◌, is_some, length, take, drop, ℤ, pos, pos_part, ltb_ℤ, leb_ℤ, nat_key,
  string_key, ℕ, ◌+◌, ◌-◌, ◌/◌, Bool, ◌&&◌, Option, none, some, List, [], ◌∷◌, ◌++◌, arith,
}

-- Which file operations fail in one call, and how many bytes a failed write still wrote.
pub record Faults : Type 0 where
  pub read : Bool
  pub open_file : Bool
  pub tail : Bool
  pub terminate : Bool
  pub write : Bool
  pub written : ℕ
  pub close : Bool
  pub reread : Bool
  pub remove : Bool
  pub write_tmp : Bool
  pub rename : Bool

pub data SpoolError : Type 0 where
  read_failed encode_failed open_failed tail_failed terminate_failed : SpoolError
  append_failed close_failed clear_failed write_failed replace_failed : SpoolError

-- `count` is `none` where the source has -1. `file` is the spool file, if it exists.
pub record Spool : Type 0 where
  pub capacity : ℕ
  pub count : Option ℕ
  pub file : Option (List ℕ)

-- `NewSpool`, once its directory is there.
unfoldable pub new_spool : ℤ → Option (List ℕ) → Spool
new_spool capacity file = record {
  capacity = if ltb_ℤ capacity (pos 1) then 5000 else pos_part capacity;
  count = none;
  file = file;
}

abbrev pub compaction_slack : ℕ → ℕ
compaction_slack capacity = if ltb (capacity / 10) 1 then 1 else capacity / 10

-- The last write: a failed one may have written some of the bytes.
unfoldable pub write_line : Faults → Spool → List ℕ → List ℕ → Spool × Option SpoolError
write_line f sp raw line =
    if f.write
    then (
      record sp { file = some (raw ++ take f.written (line ++ newline ∷ [])) },
      some append_failed,
    )
    else (
      record sp { file = some (raw ++ (line ++ newline ∷ [])) },
      if f.close then some close_failed else none,
    )

-- From the opening of the file, which creates it, to its closing.
unfoldable pub append_line : Faults → Spool → List ℕ → Spool × Option SpoolError
unfolding ends_with_newline write_line
append_line f sp line =
    let raw = bytes_of sp.file in
    let opened = record sp { file = some raw } in
    if f.open_file
    then (sp, some open_failed)
    else if f.tail
    then (opened, some tail_failed)
    else if is_terminated sp.file
    then write_line f opened raw line
    else if f.terminate
    then (opened, some terminate_failed)
    else write_line f opened (raw ++ newline ∷ []) line

module _ {S : Type 0} (json : Codec S) where
  -- `writeLocked`: the file is removed if nothing is left, and replaced by a rename otherwise.
  unfoldable pub write_locked : Faults → Spool → List S → Spool × Option SpoolError
  unfolding encode_lines
  write_locked f sp [] =
      if f.remove && is_some sp.file
      then (sp, some clear_failed)
      else (record sp { file = none; count = some 0 }, none)
  write_locked f sp (s ∷ ss) = elim (encode_lines json (s ∷ ss)) [
    | none ↦ (sp, some encode_failed)
    | some raw ↦
        if f.write_tmp
        then (sp, some write_failed)
        else if f.rename
        then (sp, some replace_failed)
        else (record sp { file = some raw; count = some (length (s ∷ ss)) }, none)
  ]

  -- The lazy compaction: the oldest samples go once the file has drifted past its slack.
  unfoldable pub compact : Faults → Spool → ℕ → Spool × Option SpoolError
  unfolding contents write_locked
  compact f sp count =
      let samples = contents json sp.file in
      if leb count (sp.capacity + compaction_slack sp.capacity)
      then (sp, none)
      else if f.reread
      then (sp, some read_failed)
      else write_locked f sp (
          if ltb sp.capacity (length samples)
          then drop (length samples - sp.capacity) samples
          else samples)

  -- `s.count`, read from the file at its first use.
  unfoldable pub known_count : Faults → Spool → Option ℕ
  unfolding contents
  known_count f sp = elim sp.count [
    | some n ↦ some n
    | none ↦ if f.read then none else some (length (contents json sp.file))
  ]

  append_counted : Faults → Spool → ℕ → List ℕ → Spool × Option SpoolError
  unfolding append_line compact
  append_counted f sp n line =
      let (sp', failure) = append_line f sp line in
      elim failure [
        | some e ↦ (sp', some e)
        | none ↦ compact f (record sp' { count = some (n + 1) }) (n + 1)
      ]

  append_known : Faults → Spool → ℕ → S → Spool × Option SpoolError
  unfolding append_counted
  append_known f sp n sample = elim (json.encode sample) [
    | none ↦ (record sp { count = some n }, some encode_failed)
    | some line ↦ append_counted f (record sp { count = some n }) n line
  ]

  unfoldable pub append : Faults → Spool → S → Spool × Option SpoolError
  unfolding known_count append_known
  append f sp sample = elim (known_count f sp) [
    | none ↦ (sp, some read_failed)
    | some n ↦ append_known f sp n sample
  ]

  abbrev pub first_of_buffer : ℤ → List S → List S
  first_of_buffer n samples =
      if ltb_ℤ (pos 0) n && ltb_ℤ n (pos (length samples))
      then take (pos_part n) samples
      else samples

  -- `none` is a failed read.
  unfoldable pub peek : Faults → Spool → ℤ → Option (List S)
  unfolding contents
  peek f sp n = if f.read then none else some (first_of_buffer n (contents json sp.file))

  unfoldable pub commit : Faults → Spool → ℤ → Spool × Option SpoolError
  unfolding contents write_locked
  commit f sp n =
      let samples = contents json sp.file in
      if leb_ℤ n (pos 0)
      then (sp, none)
      else if f.read
      then (sp, some read_failed)
      else if leb_ℤ (pos (length samples)) n
      then write_locked f sp []
      else write_locked f sp (drop (pos_part n) samples)

  unfoldable pub len : Faults → Spool → Option ℕ
  unfolding contents
  len f sp = if f.read then none else some (length (contents json sp.file))
