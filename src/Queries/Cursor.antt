-- ===== src/Queries/Cursor.antt =====
-- The text of a cursor, decoded again.
use frontdoor.Prelude.{
  is_empty, ℕ, suc, zero, ◌+◌, ◌%◌, ◌<◌, ◌-◌, false, [], ◌∷◌, ◌++◌, length, length-append, some, ok,
  ◌≡◌, refl, sym, ap, ◌∙◌, arith, ◌==◌, All,
}
use frontdoor.Prelude.Results.{◌>>=◌}
use frontdoor.Reader.Record.{Text}
use frontdoor.Clock.{as_utc}
use frontdoor.Queries.{
  EventCursor, Codec, encode, decode, strip_padding, padding, repeat, cursor_of, checked_cursor,
}

-- Base64 of some bytes: letters that are no `=`, then as many `=` as make the length a multiple of 4.
pub record IsPadded (code : Text) : Type 0 where
  pub body : Text
  pub fill : ℕ
  pub parts : code ≡ body ++ repeat fill b'='
  pub plain : All (λ c. (c == b'=') ≡ false) body
  pub short : fill < 4
  pub whole : length code % 4 ≡ 0

-- What is documented of JSON, base64 and the ISO format, of the text of one cursor.
pub record IsLossless {Json : Type 0} (codec : Codec Json) (cursor : EventCursor) : Type 0 where
  pub array :
      (j k l : Json) × (codec.loads
          (codec.dumps (codec.isoformat (as_utc cursor.timestamp)) cursor.event_id)
        ≡ ok j)
      × (codec.items j ≡ some (k ∷ l ∷ []))
      × (codec.str k ≡ codec.isoformat (as_utc cursor.timestamp))
      × (codec.str l ≡ cursor.event_id)
  pub padded :
      let bytes = codec.dumps (codec.isoformat (as_utc cursor.timestamp)) cursor.event_id in
      IsPadded (codec.b64encode bytes)
  pub base64 :
      let bytes = codec.dumps (codec.isoformat (as_utc cursor.timestamp)) cursor.event_id in
      codec.b64decode (codec.b64encode bytes) ≡ ok bytes
  pub iso :
      codec.fromisoformat (codec.isoformat (as_utc cursor.timestamp)) ≡ ok (as_utc cursor.timestamp)

length-repeat : (n c : ℕ) → length (repeat n c) ≡ n
length-repeat zero c = refl
length-repeat (suc n) c = ap suc (length-repeat n c)

strip_padding-repeat : (n : ℕ) → strip_padding (repeat n b'=') ≡ []
strip_padding-repeat zero = refl
strip_padding-repeat (suc n) = rw (strip_padding-repeat n) refl

strip_padding-body :
    (body : Text) (n : ℕ)
    → All (λ c. (c == b'=') ≡ false) body
    → strip_padding (body ++ repeat n b'=') ≡ body
strip_padding-body [] n plain = strip_padding-repeat n
strip_padding-body (c ∷ []) n plain = ground (arith, strip_padding-repeat n)
strip_padding-body (c ∷ d ∷ rest) n plain = ground (arith, strip_padding-body (d ∷ rest) n plain.1)

-- The length of the body says how much was stripped.
missing : (b n : ℕ) → n < 4 → (b + n) % 4 ≡ 0 → (4 - b % 4) % 4 ≡ n
missing b n short whole = omega arith

unpadded : (code : Text) → IsPadded code → strip_padding code ++ padding (strip_padding code) ≡ code
unfolding padding
unpadded code h =
    let stripped : strip_padding code ≡ h.body =
      ap strip_padding h.parts ∙ strip_padding-body h.body h.fill h.plain in
    let total : length code ≡ length h.body + h.fill =
      ap length h.parts
      ∙ length-append h.body (repeat h.fill b'=')
      ∙ ap (◌+◌ (length h.body)) (length-repeat h.fill b'=') in
    let fill = missing (length h.body) h.fill h.short (rw (← total) h.whole) in
    rw (stripped, fill) (sym h.parts)

-- A cursor whose event has an id is read back from its text, with its time in UTC, if base64, JSON
-- and the ISO format read what they wrote for it; the padding that the text leaves out is put back.
pub decode-encode :
    {Json : Type 0} (codec : Codec Json) (cursor : EventCursor)
    → IsLossless codec cursor
    → is_empty cursor.event_id ≡ false
    → decode codec (encode codec cursor)
      ≡ ok (record cursor { timestamp = as_utc cursor.timestamp })
unfolding decode encode cursor_of checked_cursor ◌>>=◌
decode-encode codec cursor lossless named =
    let at = codec.isoformat (as_utc cursor.timestamp) in
    let bytes = codec.dumps at cursor.event_id in
    let (j, k, l, loaded, items, first, second) = lossless.array in
    rw
      (
        unpadded (codec.b64encode bytes) (lossless.padded),
        lossless.base64,
        loaded,
        items,
        first,
        second,
        lossless.iso,
        named,
      )
      refl
