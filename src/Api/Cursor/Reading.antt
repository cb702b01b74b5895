-- ===== src/Api/Cursor/Reading.antt =====
-- About the cursors that api/entries.py and api/feeds.py write, and about the texts they refuse.
use feedgate_fetcher.Prelude.{
  ℕ, ◌≡◌, ◌≢◌, refl, Option, none, some, List, [], Bool, true, false, ◌∷◌, All-append, arith,
}
use feedgate_fetcher.Prelude.Base64.{encode}
use feedgate_fetcher.Prelude.Base64.RoundTrip.{AllBytes, decode-encode}
use feedgate_fetcher.Prelude.Ints.{pos, decimal, decimal-AllDigits, AllDigits}
use feedgate_fetcher.Prelude.Texts.{codes, rstrip}
use feedgate_fetcher.Api.Http.{respond, http_error}
use feedgate_fetcher.Api.Cursor.{
  Codec, done, reply_of, ◌>>=◌, Json, null, boolean, text, integer, array, real, object, field, end,
  entry_payload, published_text, feed_payload, load_payload, encode_cursor, decode_cursor,
  encode_feed_cursor, decode_feed_cursor, decode_payload, published_of, get_or_null, subscript,
  int_of, lookup_field,
}

abbrev pub published_json : Codec → Option ℕ → Json
published_json codec none = null
published_json codec (some t) = text (codec.isoformat t)

abbrev pub is_object : Json → Bool
is_object (object fields) = true
is_object _ = false

-- An instant is written in ASCII, not as the empty text, and is read back.
abbrev pub IsReadBack : Codec → Option ℕ → Type 0
IsReadBack codec none = Unit
IsReadBack codec (some t) =
    (codec.fromisoformat (codec.isoformat t) ≡ some t)
    × AllBytes (codec.isoformat t)
    × (codec.isoformat t ≢ [])

-- What JSON and ISO 8601 promise for one cursor of the listing of entries.
pub record ReadsEntryCursor (codec : Codec) (published_at : Option ℕ) (entry_id : ℕ) : Type 0 where
  pub instant : IsReadBack codec published_at
  pub loads :
      codec.loads (entry_payload codec published_at entry_id)
      ≡ done (
          object (
            field
              (codes "p")
              (published_json codec published_at)
              (field (codes "i") (integer (pos entry_id)) end)))

abbrev pub ReadsFeedCursor : Codec → ℕ → Type 0
ReadsFeedCursor codec feed_id =
    codec.loads (feed_payload feed_id)
    ≡ done (object (field (codes "i") (integer (pos feed_id)) end))

AllBytes-AllDigits : (s : List ℕ) → AllDigits s → AllBytes s
AllBytes-AllDigits [] h = tt
AllBytes-AllDigits (c ∷ s) h = (ground arith, AllBytes-AllDigits s h.1)

AllBytes-feed_payload : (i : ℕ) → AllBytes (feed_payload i)
unfolding feed_payload
AllBytes-feed_payload i =
    All-append _ (codes "{\"i\":") _ (ground arith)
      (All-append _ (decimal i) _ (AllBytes-AllDigits _ (decimal-AllDigits i)) (omega arith, tt))

module _ (codec : Codec) where
  AllBytes-published_text : (p : Option ℕ) → IsReadBack codec p → AllBytes (published_text codec p)
  unfolding published_text
  AllBytes-published_text none h = ground arith
  AllBytes-published_text (some t) h =
      (omega arith, All-append _ (codec.isoformat t) (b'"' ∷ []) h.1 (omega arith, tt))

  AllBytes-entry_payload :
      (p : Option ℕ) (i : ℕ) → IsReadBack codec p → AllBytes (entry_payload codec p i)
  unfolding entry_payload
  AllBytes-entry_payload p i h = All-append _ (codes "{\"p\":") _ (ground arith) (
      All-append _ (published_text codec p) _ (AllBytes-published_text p h) (
        All-append _ (codes ",\"i\":") _ (ground arith) (
          All-append _ (decimal i) _ (AllBytes-AllDigits _ (decimal-AllDigits i))
            (omega arith, tt))))

  load_payload-encode :
      (bytes : List ℕ)
      → AllBytes bytes
      → load_payload codec (rstrip b'=' (encode bytes)) ≡ codec.loads bytes
  unfolding load_payload
  load_payload-encode bytes h = rw (load_payload, decode-encode bytes h) refl

  published_of-text :
      (t : ℕ) (s : List ℕ)
      → codec.fromisoformat s ≡ some t
      → s ≢ []
      → published_of codec (text s) ≡ done (some t)
  unfolding published_of
  published_of-text t [] e n = absurd (n refl)
  published_of-text t (c ∷ s) e n = rw (published_of, e) refl

  published_of-json :
      (p : Option ℕ) → IsReadBack codec p → published_of codec (published_json codec p) ≡ done p
  unfolding published_of
  published_of-json none h = refl
  published_of-json (some t) h = published_of-text t (codec.isoformat t) h.0 h.2

  -- A cursor of the listing of entries is read back as it was written, if JSON loads its payload
  -- and the ISO text of its instant, which is ASCII and not empty, reads back.
  pub decode_cursor-encode_cursor :
      (published_at : Option ℕ) (entry_id : ℕ)
      → ReadsEntryCursor codec published_at entry_id
      → decode_cursor codec (encode_cursor codec published_at entry_id)
        ≡ respond (published_at, pos entry_id)
  unfolding decode_cursor encode_cursor decode_payload get_or_null subscript int_of
  decode_cursor-encode_cursor p i h =
      rw
        (
          load_payload-encode _ (AllBytes-entry_payload p i h.instant),
          h.loads,
          lookup_field,
          lookup_field,
          published_of-json p h.instant,
        )
        refl

  -- A cursor of the listing of feeds is read back as it was written.
  pub decode_feed_cursor-encode_feed_cursor :
      (feed_id : ℕ)
      → ReadsFeedCursor codec feed_id
      → decode_feed_cursor codec (encode_feed_cursor feed_id) ≡ respond (pos feed_id)
  unfolding decode_feed_cursor encode_feed_cursor subscript int_of
  decode_feed_cursor-encode_feed_cursor i h =
      rw (load_payload-encode _ (AllBytes-feed_payload i), h, lookup_field) refl

  not_object-statuses :
      (payload : Json)
      → is_object payload ≡ false
      → (reply_of (decode_payload codec payload) ≡ http_error 500)
        × (reply_of (subscript (codes "i") payload >>= int_of) ≡ http_error 400)
  unfolding decode_payload get_or_null subscript
  not_object-statuses null n = (refl, refl)
  not_object-statuses (boolean b) n = (refl, refl)
  not_object-statuses (integer i) n = (refl, refl)
  not_object-statuses (real x) n = (refl, refl)
  not_object-statuses (text s) n = (refl, refl)
  not_object-statuses (array xs) n = (refl, refl)
  not_object-statuses (object fields) n = cc

  -- A cursor whose payload is JSON but not an object is refused with 400 by the listing of feeds,
  -- and is the server's error 500 in the listing of entries.
  pub decode_cursor-not_object :
      (cursor : List ℕ) (payload : Json)
      → load_payload codec cursor ≡ done payload
      → is_object payload ≡ false
      → (decode_cursor codec cursor ≡ http_error 500)
        × (decode_feed_cursor codec cursor ≡ http_error 400)
  unfolding decode_cursor decode_feed_cursor
  decode_cursor-not_object cursor payload e n = rw e (not_object-statuses payload n)
