-- ===== src/HealthFile.antt =====
-- bridgewire/adapters/health/file_reporter.py: the health file, which each report replaces. The file
-- system, the clock and JSON are parameters.
pub mod Replaced
use frontdoor.Prelude.{
  ℕ, String, Bool, true, false, not, Option, none, some, List, [], ◌∷◌, ◌++◌, take, Exception,
  value_error, Result, ok, err, Exec, pure, raise, ◌>>=◌, ◌>>◌, if◌then◌else◌,
}
use frontdoor.Clock.{Timestamp, is_aware}
use frontdoor.Reader.Record.{Text}

-- What a report writes: `**details` as pairs of texts.
pub record Payload : Type 0 where
  pub status : String
  pub reported_at : String
  pub details : List (String × String)

-- The operations of the reporter's surroundings; a write tells how many characters reached the file
-- when it returned or raised. `dump` is `json.dump` with sorted keys.
pub record Surroundings (W : Type 0) : Type 0 where
  pub make_directory : W → Result (Unit {0}) × W
  pub now : W → Timestamp × W
  pub isoformat : Timestamp → String
  pub create_temporary : W → Result (Unit {0}) × W
  pub dump : Payload → Text
  pub write_temporary : Text → W → (ℕ × Result (Unit {0})) × W
  pub replace : W → Result (Unit {0}) × W
  pub unlink : W → Result (Unit {0}) × W

-- The health file, the temporary file and the world.
pub record FileHealthReporter (W : Type 0) : Type 0 where
  pub file : Option Text
  pub temporary : Option Text
  pub world : W

module _ {W : Type 0} (around : Surroundings W) where
  abbrev pub perform : (W → Result (Unit {0}) × W) → Exec (FileHealthReporter W) Unit
  perform f h = let (result, w) = f h.world in (result, record h { world = w })

  abbrev pub read_now : Exec (FileHealthReporter W) Timestamp
  read_now h = let (now, w) = around.now h.world in (ok now, record h { world = w })

  -- The `finally` clause where the temporary file is still there; its exception replaces the one before.
  unfoldable pub clear_temporary : Exception → Exec (FileHealthReporter W) Unit
  clear_temporary e h =
      let (removed, w) = around.unlink h.world in
      elim removed [
        | err second ↦ (err second, record h { world = w })
        | ok _ ↦ (err e, record h { temporary = none; world = w })
      ]

  -- From `json.dump` to `os.replace`.
  unfoldable pub write_and_replace : Text → Exec (FileHealthReporter W) Unit
  unfolding clear_temporary
  write_and_replace text h =
      let ((count, wrote), w) = around.write_temporary text h.world in
      let written = take count text in
      let (replaced, w') = around.replace w in
      elim wrote [
        | err e ↦ clear_temporary e (record h { temporary = some written; world = w })
        | ok _ ↦ elim replaced [
          | err e ↦ clear_temporary e (record h { temporary = some written; world = w' })
          | ok _ ↦ (ok tt, record { file = some written; temporary = none; world = w' })
        ]
      ]

  -- `FileHealthReporter.report`
  unfoldable pub report_health : String → List (String × String) → Exec (FileHealthReporter W) Unit
  unfolding write_and_replace
  report_health status details = do
    perform around.make_directory
    reported_at ← read_now
    if not (is_aware reported_at) then raise value_error else (do
      perform around.create_temporary
      write_and_replace (
          around.dump (record {
            status = status;
            reported_at = around.isoformat reported_at;
            details = details;
          })
          ++ 0x0a ∷ []))
