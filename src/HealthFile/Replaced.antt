-- ===== src/HealthFile/Replaced.antt =====
-- The health file after a report.
use frontdoor.Prelude.{
  String, some, none, List, [], ◌∷◌, ◌++◌, take, Exception, ok, err, ◌≡◌, arith,
}
use frontdoor.Reader.Record.{Text}
use frontdoor.HealthFile.{
  Surroundings, FileHealthReporter, report_health, write_and_replace, clear_temporary,
}

-- A write that returns has written everything.
pub record WritesAll {W : Type 0} (around : Surroundings W) : Type 0 where
  pub all_written :
      (text : Text) (w : W)
      → (around.write_temporary text w).0.1 ≡ ok tt
      → take (around.write_temporary text w).0.0 text ≡ text

-- The time that a report reads.
abbrev pub report_time : {W : Type 0} → Surroundings W → FileHealthReporter W → String
report_time around h = around.isoformat (around.now (around.make_directory h.world).1).0

-- A report that raises leaves the health file as it was, whatever the file system does. If a write
-- that returns has written everything, a report that returns leaves the whole payload in the health
-- file, with the time that it read, and no temporary file.
report_health_atomic :
    {W : Type 0} (around : Surroundings W) (status : String) (details : List (String × String))
    (h : FileHealthReporter W)
    → WritesAll around
    → let (result, h') = report_health around status details h in
      ((e : Exception) → result ≡ err e → h'.file ≡ h.file)
      × (result ≡ ok tt
          → (h'.file
              ≡ some (
                  around.dump (record {
                    status = status;
                    reported_at = report_time around h;
                    details = details;
                  })
                  ++ 0x0a ∷ []))
            × (h'.temporary ≡ none))
unfolding report_health write_and_replace clear_temporary
report_health_atomic around status details h writes = grind (arith, writes.all_written)
