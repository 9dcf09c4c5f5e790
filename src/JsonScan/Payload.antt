-- ===== src/JsonScan/Payload.antt =====
-- src/json_scan.rs on the body that clients send: one object with the streamed member, whose text
-- is plain (base64 is).
use remarkable_server.Base.{
  ℕ, ◌≡◌, refl, ap, ◌∙◌, sym, Bool, true, false, Option, none, some, List, [], ◌∷◌, ◌++◌, map,
  append-nil, append_assoc, Bytes, codes, All,
}
use remarkable_server.Base.Result.{Result, ok, err, ◌>>=◌}
use remarkable_server.JsonScan.{
  ScanError, Member, Streamed, Scanned, Output, no_output, State, Container, Role, Target, Esc,
  Scanner, new,
}
use remarkable_server.JsonScan.Text.{emit}
use remarkable_server.JsonScan.Feed.{is_plain, at_character, finish, complete, is_end, is_number}
use remarkable_server.JsonScan.ByByte.{seen, view, byte_in, byte_run}
use remarkable_server.JsonScan.ByByte.Turns.{kind}
use remarkable_server.JsonScan.ByByte.Runs.{byte_run-append}
use remarkable_server.JsonScan.ByByte.Runs.Strings.{byte_run-str, string_byte-plain}
use remarkable_server.JsonScan.Body.{scan, receive, receive_bytes, with_blob}
use remarkable_server.JsonScan.Chunks.{concat, scan_run, kept, ended}

abbrev pub before_payload : Bytes
before_payload = codes "{\"payload\":\""

abbrev pub after_payload : Bytes
after_payload = codes "\"}"

-- In the streamed member's text.
abbrev pub inside : List Bytes → ℕ → Scanner
inside keys limit = record {
  streamed_key = codes "payload";
  capture_keys = keys;
  capture_cap = limit;
  state = State.str;
  stack = Container.object ∷ [];
  offset = 0;
  role = Role.streamed;
  esc = Esc.plain;
  utf8_need = 0;
  utf8_lo = 0x80;
  utf8_hi = 0xBF;
  key = codes "payload";
  key_long = false;
  first_key = true;
  member = Target.streamed;
  text = [];
  text_long = false;
  number = [];
  literal = [];
  captured = map (λ k. Member.absent) keys;
  streamed = Streamed.text;
}

module _ (is_numeral : Bytes → Bool) (keys : List Bytes) (limit : ℕ) where
  opening :
      byte_run is_numeral before_payload (new (codes "payload") keys limit) no_output
      ≡ ok (inside keys limit, record { restart = true; bytes = [] })
  unfolding byte_run byte_in new
  opening = refl

  inside_run :
      (bs : Bytes) (out : Bytes)
      → All (λ b. is_plain b ≡ true) bs
      → byte_run is_numeral bs (inside keys limit) (record { restart = true; bytes = out })
        ≡ ok (inside keys limit, record { restart = true; bytes = out ++ bs })
  unfolding byte_run emit at_character
  inside_run [] out h =
      ap {A = Bytes} (λ z. ok (inside keys limit, record { restart = true; bytes = z }))
        (sym (append-nil out))
  inside_run (b ∷ bs) out (p, h) =
      byte_run-str is_numeral b bs (inside keys limit) (record { restart = true; bytes = out }) refl
      ∙ ap (λ x. x >>= λ r. byte_run is_numeral bs r.0 r.1)
          (string_byte-plain is_numeral b (inside keys limit)
            (record { restart = true; bytes = out }) refl p)
      ∙ inside_run bs (out ++ b ∷ []) h
      ∙ ap {A = Bytes} (λ z. ok (inside keys limit, record { restart = true; bytes = z }))
          (append_assoc out (b ∷ []) bs)

  abbrev closed : Scanner
  closed = record (inside keys limit) { state = State.end; stack = [] }

  closing :
      (out : Output) → byte_run is_numeral after_payload (inside keys limit) out ≡ ok (closed, out)
  unfolding byte_run byte_in
  closing out = refl

  whole_run :
      (bs : Bytes)
      → All (λ b. is_plain b ≡ true) bs
      → byte_run is_numeral
          (before_payload ++ (bs ++ after_payload))
          (new (codes "payload") keys limit)
          no_output
        ≡ ok (closed, record { restart = true; bytes = bs })
  whole_run bs h =
      byte_run-append is_numeral before_payload (bs ++ after_payload)
        (new (codes "payload") keys limit) no_output
      ∙ ap (λ x. x >>= λ r. byte_run is_numeral (bs ++ after_payload) r.0 r.1) opening
      ∙ byte_run-append is_numeral bs after_payload (inside keys limit)
          (record { restart = true; bytes = [] })
      ∙ ap (λ x. x >>= λ r. byte_run is_numeral after_payload r.0 r.1) (inside_run bs [] h)
      ∙ closing (record { restart = true; bytes = bs })

-- A body `{"payload":"<text>"}`, in whatever pieces it comes, is read to its end: a text of ASCII
-- without quotes, backslashes and control characters is received whole and in order, and no
-- captured member is found.
pub payload_arrives :
    (is_numeral : Bytes → Bool) (keys : List Bytes) (limit : ℕ) (text : Bytes) (pieces : List Bytes)
    → All (λ b. is_plain b ≡ true) text
    → concat pieces ≡ before_payload ++ (text ++ after_payload)
    → scan is_numeral pieces (new (codes "payload") keys limit) none
      ≡ ok
          (record { captured = map (λ k. Member.absent) keys; streamed = Streamed.text }, some text)
unfolding kind ended kept seen view receive receive_bytes with_blob finish complete is_end is_number
payload_arrives is_numeral keys limit text pieces h e = of_kind _ (
    scan_run is_numeral pieces (new (codes "payload") keys limit) none
    ∙ ap
        (λ bs.
          ended is_numeral (
            kept none (seen (byte_run is_numeral bs (new (codes "payload") keys limit) no_output))))
        e
    ∙ ap (λ x. ended is_numeral (kept none (seen x))) (whole_run is_numeral keys limit text h)
    ∙ refl)
  where
    of_kind :
        {a : Scanned × Option Bytes} (x : Result ScanError (Scanned × Option Bytes))
        → kind x ≡ ok a
        → x ≡ ok a
    of_kind {a = a} (ok b) h' = let q : b ≡ a = cc in ap ok q
    of_kind (err (ScanError.syntax at what)) h' = cc
    of_kind (err (ScanError.too_long what)) h' = cc
