-- ===== src/Updater.antt =====
-- updater/updater.go: an update of the sources, which replaces the playlist that the M3U handler serves, and the start
-- of the updater. The handler is the path that it has.
pub mod Serving
pub mod Boot
mod Examples
use streamweaver.Prelude.{
  ℕ, Bool, true, false, Option, none, some, List, [], ◌∷◌, Text, bytes, text_eq, is_empty,
  if◌then◌else◌,
}
use streamweaver.Env.{determine_base_url}
use streamweaver.Sorting.{Shard}
use streamweaver.Processing.{trim_space}
use streamweaver.Disk.{Disk, remove_all}
use streamweaver.Paths.{Found, found, failed, panicked, get_latest_processed_m3u_path}
use streamweaver.Processor.{
  M3uProcessor, Setup, Writes, returned, waiting, crashed, new_processor, run, get_result_path,
}

-- One update: the time as 20060102150405, BASE_URL, whether the context has ended before it, and in Wait.
pub record Update : Type 0 where
  pub now : Text
  pub base_url : Option Text
  pub ended : Bool
  pub cancelled : Bool
  pub writes : Writes

-- The path of the handler and the disk, a wait without end, or a panic, which ends the program.
pub data Updated : Type 0 where
  updated : Text → Disk → Updated
  stuck panic : Updated

module _ (setup : Setup) (shards : List Shard) where
  unfoldable pub set_result : M3uProcessor → Disk → Updated
  set_result p disk = elim (get_result_path setup.dir p disk) [
    | found path' ↦ updated path' disk
    | failed ↦ updated [] disk
    | panicked ↦ panic
  ]

  -- A nil processor panics in Run.
  unfoldable pub run_processor : Update → Text → Text → Option M3uProcessor → Disk → Updated
  unfolding set_result
  run_processor u base path none disk = panic
  run_processor u base path (some p) disk =
      elim (run setup (determine_base_url (some base) none) u.writes u.cancelled p disk) [
        | returned true p' disk' ↦ updated path disk'
        | returned false p' disk' ↦ set_result p' disk'
        | waiting ↦ stuck
        | crashed ↦ panic
      ]

  -- With the new processor.
  unfoldable pub update_with : Update → Text → Option M3uProcessor → Disk → Updated
  unfolding run_processor
  update_with u path processor disk = if u.ended then updated path disk else elim u.base_url [
    | none ↦ updated path disk
    | some base ↦ run_processor u base path processor disk
  ]

  -- `path` is that of the handler before.
  unfoldable pub update_sources : Update → Text → Disk → Updated
  unfolding update_with
  update_sources u path disk =
      let made = new_processor setup.dir u.now shards disk in update_with u path made.0 made.1

-- A variable of the environment, or its default if it is blank.
abbrev pub or_default : Text → Text → Text
or_default value default = if is_empty (trim_space value) then default else value

-- The updater is started, with the path of the handler, the disk, and whether an update begins; or the schedule is
-- refused; or the program panics.
pub data Started : Type 0 where
  started : Text → Disk → Bool → Started
  refused panic : Started

-- `accepts` is whether cron takes a schedule.
module _ (dir : Text) (accepts : Text → Bool) where
  abbrev pub schedule_at : Text → Text → Text → Disk → Started
  schedule_at sync_cron sync_on_boot path disk =
      if accepts (or_default sync_cron (bytes "0 0 * * *"))
      then started path disk (text_eq (or_default sync_on_boot (bytes "true")) (bytes "true"))
      else refused

  -- The three variables, and the path of a new handler.
  unfoldable pub initialize : Text → Text → Text → Text → Disk → Started
  unfolding text_eq is_empty trim_space
  initialize clear_on_boot sync_cron sync_on_boot path disk =
      if text_eq (or_default clear_on_boot (bytes "false")) (bytes "true")
      then schedule_at sync_cron sync_on_boot path (remove_all dir disk)
      else elim (get_latest_processed_m3u_path dir disk) [
        | found latest ↦ schedule_at sync_cron sync_on_boot latest disk
        | failed ↦ schedule_at sync_cron sync_on_boot path disk
        | panicked ↦ Started.panic
      ]
