-- ===== src/Notifications/Delivery.antt =====
-- What the durable queue of bridgewire/audit.py holds after its methods.
use frontdoor.Prelude.{
  ◌≡◌, refl, ap, sym, String, Bool, true, false, not, List, [], ◌∷◌, ◌++◌, take, keep, length, all,
  All, All-append, eq_iff, ◌≢◌, str_eq, Bool-cases, inl, inr, Exception, Result, ok, err, arith,
  append_assoc, append-nil,
}
use frontdoor.Reader.Record.{Text}
use frontdoor.Audit.{AuditEvent}
use frontdoor.Notifications.{
  Item, as_dict, Json, Disk, DurableNotificationQueue, content, is_line_break, unless_empty,
  lines_from, load_lines, text_of, append_text, enqueue, pending_in, pending, discard_temporary,
  replace_by, others, mark_delivered, deliver_first, deliver_one,
}

-- What is written of an item is read back, with no line break inside, and is not empty.
pub record IsCoded (json : Json) (item : Item) : Type 0 where
  pub back : json.loads (json.dumps item) ≡ ok item
  pub plain : all (λ c. not (is_line_break c)) (json.dumps item) ≡ true
  pub filled : (lines : List Text) → unless_empty (json.dumps item) lines ≡ json.dumps item ∷ lines

-- Every operation of the file system returns, and writes the whole text.
pub record IsWorking {W : Type 0} (disk : Disk W) : Type 0 where
  pub makes : (w : W) → (disk.make_directory w).0 ≡ ok tt
  pub opens : (w : W) → (disk.open_append w).0 ≡ ok tt
  pub appends : (text : Text) (w : W) → (disk.append text w).0 ≡ (length text, ok tt)
  pub reads : (w : W) → (disk.read w).0 ≡ ok tt
  pub creates : (w : W) → (disk.create_temporary w).0 ≡ ok tt
  pub writes : (text : Text) (w : W) → (disk.write_temporary text w).0 ≡ (length text, ok tt)
  pub replaces : (w : W) → (disk.replace w).0 ≡ ok tt

pub take-length : (xs : Text) → take (length xs) xs ≡ xs
take-length [] = refl
take-length (x ∷ xs) = ap (◌∷◌ x) (take-length xs)

lines_from-line :
    (acc line rest : Text)
    → all (λ c. not (is_line_break c)) line ≡ true
    → lines_from acc (line ++ 0x0a ∷ rest) ≡ unless_empty (acc ++ line) (lines_from [] rest)
lines_from-line acc [] rest h = ap (λ a. unless_empty a (lines_from [] rest)) (sym (append-nil acc))
lines_from-line acc (c ∷ line) rest h =
    grind (arith, lines_from-line (acc ++ c ∷ []) line rest, append_assoc)

load_lines-text_of :
    (json : Json) (items : List Item)
    → All (IsCoded json) items
    → load_lines json (lines_from [] (text_of json items)) ≡ ok items
unfolding load_lines
load_lines-text_of json [] coded = refl
load_lines-text_of json (item ∷ items) coded =
    rw (lines_from-line [] (json.dumps item) (text_of json items) coded.0.plain, coded.0.filled)
      (grind (arith, coded.0.back, load_lines-text_of json items coded.1))

text_of-append :
    (json : Json) (items : List Item) (item : Item)
    → text_of json (items ++ item ∷ []) ≡ text_of json items ++ json.dumps item ++ 0x0a ∷ []
text_of-append json [] item = refl
text_of-append json (i ∷ items) item = simp (text_of-append json items item, append_assoc)

-- The queue holds the items, one on a line, each of which JSON reads back as it was written.
abbrev pub Holds : {W : Type 0} → Json → DurableNotificationQueue W → List Item → Type 0
Holds json q items = (content q.file ≡ text_of json items) × All (IsCoded json) items

-- What is left of some items where exactly those with an id are taken out.
pub data Removes (event_id : String) : List Item → List Item → Type 0 where
  nothing : Removes event_id [] []
  drops :
      {item : Item} {items left : List Item}
      → item.event_id ≡ event_id
      → Removes event_id items left
      → Removes event_id (item ∷ items) left
  keeps :
      {item : Item} {items left : List Item}
      → item.event_id ≢ event_id
      → Removes event_id items left
      → Removes event_id (item ∷ items) (item ∷ left)

others-Removes :
    (event_id : String) (items : List Item)
    → Removes event_id items (keep (λ item. not (str_eq item.event_id event_id)) items)
others-Removes event_id [] = nothing
others-Removes event_id (item ∷ items) = elim (Bool-cases (str_eq item.event_id event_id)) [
  | inl same ↦
      rw same (drops ((eq_iff item.event_id event_id).0 same) (others-Removes event_id items))
  | inr other ↦ rw other (
      keeps (λ same. absurd (ground (arith, other, (eq_iff item.event_id event_id).1 same)))
        (others-Removes event_id items))
]

All-keep :
    (P : Item → Type 0) (test : Item → Bool) (items : List Item)
    → All P items
    → All P (keep test items)
All-keep P test [] h = tt
All-keep P test (item ∷ items) h = elim (Bool-cases (test item)) [
  | inl kept ↦ rw kept (h.0, All-keep P test items h.1)
  | inr dropped ↦ rw dropped (All-keep P test items h.1)
]

module _ {W : Type 0} (json : Json) (disk : Disk W) (works : IsWorking disk) where
  pending-Holds :
      (q : DurableNotificationQueue W) (items : List Item)
      → Holds json q items
      → ((pending json disk q).0 ≡ ok items) × ((pending json disk q).1.file ≡ q.file)
  unfolding pending pending_in
  pending-Holds q items held =
      let read = load_lines-text_of json items held.1 in
      (grind (arith, held.0, works.reads), grind arith)

  -- Where the file system works, an event that JSON reads back as it was written and that is enqueued
  -- is the last of the pending ones, and the ones before it are still pending.
  pub pending-enqueue :
      (event : AuditEvent) (q : DurableNotificationQueue W) (items : List Item)
      → Holds json q items
      → IsCoded json (as_dict event)
      → let (outcome, q') = enqueue json disk event q in
        (outcome ≡ ok tt)
        × Holds json q' (items ++ as_dict event ∷ [])
        × ((pending json disk q').0 ≡ ok (items ++ as_dict event ∷ []))
  unfolding enqueue append_text
  pending-enqueue event q items held coded =
      let grown = text_of-append json items (as_dict event) in
      let after = (enqueue json disk event q).1 in
      let holds : Holds json after (items ++ as_dict event ∷ []) = (
        grind (arith, held.0, works.makes, works.opens, works.appends, take-length, append_assoc),
        All-append (IsCoded json) items (as_dict event ∷ []) held.1 (coded, tt),
      ) in
      (
        grind (arith, works.makes, works.opens, works.appends),
        holds,
        (pending-Holds after _ holds).0,
      )

  mark_delivered-Holds :
      (event_id : String) (q : DurableNotificationQueue W) (items : List Item)
      → Holds json q items
      → let (outcome, q') = mark_delivered json disk event_id q in
        (outcome ≡ ok tt) × Holds json q' (others json disk event_id items)
  unfolding mark_delivered replace_by
  mark_delivered-Holds event_id q items held =
      let listed = pending-Holds q items held in
      (
        grind (
          arith, listed.0, works.makes, works.creates, works.writes, works.replaces, take-length,
        ),
        (
          grind (
            arith, listed.0, works.makes, works.creates, works.writes, works.replaces, take-length,
          ),
          All-keep (IsCoded json) (λ item. not (str_eq item.event_id event_id)) items held.1,
        ),
      )

  -- Where the file system works and JSON reads the items back as they were written: with nothing pending nothing
  -- is delivered; else the first event is delivered, and if the endpoint takes it exactly the events with
  -- its id leave the queue and the others stay in their order, and if the endpoint raises the exception goes on and the queue's file is
  -- as it was.
  pub deliver_one_first :
      (deliver : Item → W → Result (Unit {0}) × W) (q : DurableNotificationQueue W) (event : Item)
      (rest : List Item)
      → (Holds json q []
          → ((deliver_one json disk deliver q).0 ≡ ok false)
            × ((deliver_one json disk deliver q).1.file ≡ q.file))
        × (Holds json q (event ∷ rest)
            → let w = (pending json disk q).1.world in
              let (outcome, q') = deliver_one json disk deliver q in
              ((deliver event w).0 ≡ ok tt
                → (outcome ≡ ok true)
                  × ((left : List Item) × Removes event.event_id (event ∷ rest) left
                      × Holds json q' left))
              × ((e : Exception)
                  → (deliver event w).0 ≡ err e
                  → (outcome ≡ err e) × (q'.file ≡ q.file)))
  unfolding deliver_one deliver_first
  deliver_one_first deliver q event rest = (
    λ none_held. grind (arith, pending-Holds q [] none_held),
    λ held. (
      λ taken.
          let listed = pending-Holds q (event ∷ rest) held in
          let before : DurableNotificationQueue W = (pending json disk q).1 in
          let moved : DurableNotificationQueue W = record before {
            world = (deliver event before.world).1;
          } in
          let marked =
            mark_delivered-Holds event.event_id moved (event ∷ rest)
              (grind (arith, listed.1, held.0), held.1) in
          (
            grind (arith, listed.0, taken, marked.0),
            (
              others json disk event.event_id (event ∷ rest),
              others-Removes event.event_id (event ∷ rest),
              grind (arith, listed.0, taken, marked.1),
            ),
          ),
      λ e refused.
          let listed = pending-Holds q (event ∷ rest) held in
          grind (arith, listed.0, listed.1, refused),
    ),
  )

-- Whatever the file system does, a `mark_delivered` that raises leaves the file of the queue as it
-- was.
mark_delivered_atomic :
    {W : Type 0} (json : Json) (disk : Disk W) (event_id : String) (q : DurableNotificationQueue W)
    {e : Exception}
    → (mark_delivered json disk event_id q).0 ≡ err e
    → (mark_delivered json disk event_id q).1.file ≡ q.file
unfolding mark_delivered replace_by discard_temporary pending pending_in
mark_delivered_atomic json disk event_id q failed = grind arith
