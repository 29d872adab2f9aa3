-- ===== src/Notifications.antt =====
-- The durable notification queue and its worker, of bridgewire/audit.py. JSON, the file system and
-- the endpoint are parameters. A file is its text; the lock is not modelled, since every method runs
-- alone.
pub mod Delivery
use frontdoor.Prelude.{
  ℕ, String, Bool, true, false, not, ◌&&◌, ◌||◌, Option, none, some, List, [], ◌∷◌, ◌++◌, take,
  keep, length, Exception, Result, ok, err, Exec, pure, gets, modify, ◌>>=◌, ◌>>◌, str_eq, leb,
  ◌==◌, if◌then◌else◌,
}
use frontdoor.Clock.{Timestamp}
use frontdoor.Reader.Record.{Text}
use frontdoor.Audit.{AuditEvent, EventType, Severity, Correlation}

-- The dictionary of `AuditEvent.as_dict`: the texts of its enumerators and of its time stand for
-- them.
pub record Item : Type 0 where
  pub event_id : String
  pub timestamp : Timestamp
  pub event_type : EventType
  pub severity : Severity
  pub correlation : Correlation
  pub reader_state : Option String
  pub controller_state : Option String
  pub delivery_status : Option String

unfoldable pub as_dict : AuditEvent → Item
as_dict e = record {
  event_id = e.event_id;
  timestamp = e.timestamp;
  event_type = e.event_type;
  severity = e.severity;
  correlation = e.correlation;
  reader_state = e.reader_state;
  controller_state = e.controller_state;
  delivery_status = e.delivery_status;
}

-- `json.dumps` and `json.loads`.
pub record Json : Type 0 where
  pub dumps : Item → Text
  pub loads : Text → Result Item

-- The operations of the file system; each may raise. `append` and `write_temporary` tell how many
-- characters have reached the file when they return or raise.
pub record Disk (W : Type 0) : Type 0 where
  pub make_directory : W → Result (Unit {0}) × W
  pub open_append : W → Result (Unit {0}) × W
  pub append : Text → W → (ℕ × Result (Unit {0})) × W
  pub read : W → Result (Unit {0}) × W
  pub create_temporary : W → Result (Unit {0}) × W
  pub write_temporary : Text → W → (ℕ × Result (Unit {0})) × W
  pub replace : W → Result (Unit {0}) × W
  pub unlink : W → Result (Unit {0}) × W

pub record DurableNotificationQueue (W : Type 0) : Type 0 where
  pub file : Option Text
  pub temporary : Option Text
  pub world : W

abbrev pub content : Option Text → Text
content none = []
content (some text) = text

-- The characters at which `str.splitlines` cuts.
abbrev pub is_line_break : ℕ → Bool
is_line_break c =
    (leb 0x0a c && leb c 0x0d)
    || ((leb 0x1c c && leb c 0x1e) || ((c == 0x85) || ((c == 0x2028) || (c == 0x2029))))

abbrev pub unless_empty : Text → List Text → List Text
unless_empty [] lines = lines
unless_empty (c ∷ line) lines = (c ∷ line) ∷ lines

-- `[line for line in text.splitlines() if line]`, with the line so far.
abbrev pub lines_from : Text → Text → List Text
lines_from line [] = unless_empty line []
lines_from line (c ∷ rest) =
    if is_line_break c
    then unless_empty line (lines_from [] rest)
    else lines_from (line ++ c ∷ []) rest

module _ (json : Json) where
  pub load_lines : List Text → Result (List Item)
  load_lines [] = ok []
  load_lines (line ∷ lines) =
      let rest = load_lines lines in
      elim (json.loads line) [
        | err e ↦ err e
        | ok item ↦ (elim rest [ err e ↦ err e | ok items ↦ ok (item ∷ items) ])
      ]

  -- The lines that `mark_delivered` writes.
  abbrev pub text_of : List Item → Text
  text_of [] = []
  text_of (item ∷ items) = json.dumps item ++ 0x0a ∷ text_of items

module _ {W : Type 0} (json : Json) (disk : Disk W) where
  abbrev pub on_disk : {A : Type 0} → (W → Result A × W) → Exec (DurableNotificationQueue W) A
  on_disk f q = let (result, w) = f q.world in (result, record q { world = w })

  -- The body of the `with` block of `enqueue`, once the file is open.
  pub append_text : Text → Exec (DurableNotificationQueue W) Unit
  append_text text q =
      let ((written, result), w) = disk.append text q.world in
      (result, record q { file = some (content q.file ++ take written text); world = w })

  unfoldable pub enqueue : AuditEvent → Exec (DurableNotificationQueue W) Unit
  unfolding as_dict append_text
  enqueue event = do
    on_disk disk.make_directory
    on_disk disk.open_append
    append_text (json.dumps (as_dict event) ++ 0x0a ∷ [])

  pub pending_in : Option Text → Exec (DurableNotificationQueue W) (List Item)
  unfolding load_lines
  pending_in none = pure []
  pending_in (some text) = do on_disk disk.read; λ q. (load_lines json (lines_from [] text), q)

  unfoldable pub pending : Exec (DurableNotificationQueue W) (List Item)
  unfolding pending_in
  pending q = pending_in q.file q

  -- `DurableNotificationQueue.pending_count`
  unfoldable pending_count : Exec (DurableNotificationQueue W) ℕ
  unfolding pending
  pending_count = do items ← pending; pure (length items)

  -- `finally`: the exception of `unlink` replaces the one before.
  pub discard_temporary : Exception → Exec (DurableNotificationQueue W) Unit
  discard_temporary e q =
      let (result, w) = disk.unlink q.world in
      elim result [
        | ok _ ↦ (err e, record q { temporary = none; world = w })
        | err second ↦ (err second, record q { world = w })
      ]

  -- From the writes to the temporary file on.
  pub replace_by : Text → Exec (DurableNotificationQueue W) Unit
  unfolding discard_temporary
  replace_by text q =
      let ((written, result), w) = disk.write_temporary text q.world in
      let q' = record q { temporary = some (take written text); world = w } in
      elim result [
        | err e ↦ discard_temporary e q'
        | ok _ ↦
            let (replaced, w') = disk.replace w in
            elim replaced [
              | err e ↦ discard_temporary e (record q' { world = w' })
              | ok _ ↦ (
                ok tt,
                record q' { file = some (take written text); temporary = none; world = w' },
              )
            ]
      ]

  abbrev pub others : String → List Item → List Item
  others event_id items = keep (λ item. not (str_eq item.event_id event_id)) items

  unfoldable pub mark_delivered : String → Exec (DurableNotificationQueue W) Unit
  unfolding replace_by
  mark_delivered event_id = do
    items ← pending
    on_disk disk.make_directory
    on_disk disk.create_temporary
    replace_by (text_of json (others event_id items))

  -- `NotificationWorker.deliver_one`, with `deliver` of the endpoint.
  pub deliver_first :
      (Item → W → Result (Unit {0}) × W) → List Item → Exec (DurableNotificationQueue W) Bool
  unfolding mark_delivered
  deliver_first deliver [] = pure false
  deliver_first deliver (event ∷ rest) = do
    on_disk (deliver event)
    mark_delivered event.event_id
    pure true

  unfoldable pub deliver_one :
      (Item → W → Result (Unit {0}) × W) → Exec (DurableNotificationQueue W) Bool
  unfolding deliver_first
  deliver_one deliver = do items ← pending; deliver_first deliver items
