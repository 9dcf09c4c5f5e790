-- ===== src/JsonScan/Chunks.antt =====
-- src/json_scan.rs: a body scanned in pieces, and as one.
use remarkable_server.Base.{
  ◌≡◌, refl, ap, ◌∙◌, sym, if◌then◌else◌, Bool, true, false, Option, none, some, List, [], ◌∷◌,
  ◌++◌, append-nil, append_assoc, Bytes, ◌||◌, length, ◌*◌,
}
use remarkable_server.Base.Result.{Result, ok, err, ◌>>=◌}
use remarkable_server.JsonScan.{Scanned, Output, no_output, ScanError, Fail, Scanner}
use remarkable_server.JsonScan.Structure.{Step, value_done, end_number}
use remarkable_server.JsonScan.Body.{receive_bytes, receive, feed_pieces, with_blob, scan}
use remarkable_server.JsonScan.Feed.{
  placed, error, advance, feed, feed_loop, complete, is_end, is_number, finish,
}
use remarkable_server.JsonScan.ByByte.{view, join, seen, seen_after, byte_run}
use remarkable_server.JsonScan.ByByte.Runs.{byte_run-view, byte_run-append, seen_of-Alike}
use remarkable_server.JsonScan.ByByte.Turns.{kind, feed_loop_run}

unfoldable pub concat : List Bytes → Bytes
concat [] = []
concat (piece ∷ pieces) = piece ++ concat pieces

-- One call of `feed` leaves and puts out what its bytes do one at a time, with the same failure,
-- its place apart: the fuel of its loops is always enough.
pub feed_bytewise :
    (is_numeral : Bytes → Bool) (input : Bytes) (s : Scanner) (o : Output)
    → seen (kind (feed is_numeral input s o)) ≡ seen (byte_run is_numeral input s o)
unfolding feed kind seen
feed_bytewise is_numeral input s o =
    advanced (feed_loop is_numeral (length input) (2 * length input) input s o)
    ∙ feed_loop_run is_numeral (length input) input s o
  where
    advanced :
        (x : Result ScanError (Scanner × Output))
        → seen (kind (x >>= λ r. ok (advance (length input) r.0, r.1))) ≡ seen (kind x)
    advanced (ok r) = refl
    advanced (err (ScanError.syntax at what)) = refl
    advanced (err (ScanError.too_long what)) = refl

-- What the caller sees of a run of bytes, and of the pieces it has fed.
unfoldable pub kept : Option Bytes → Step → Result Fail (Scanner × Option Bytes)
kept blob (ok r) = ok (r.0, receive blob r.1)
kept blob (err f) = err f

kept_seen : Result Fail (Scanner × Option Bytes) → Result Fail (Scanner × Option Bytes)
kept_seen (ok r) = ok (view r.0, r.1)
kept_seen (err f) = err f

receive-join :
    (blob : Option Bytes) (p o : Output) → receive blob (join p o) ≡ receive (receive blob p) o
unfolding receive receive_bytes join
receive-join blob p o = by_restart o.restart p.restart blob
  where
    by_restart :
        (q r : Bool) (z : Option Bytes)
        → receive_bytes (if q then o.bytes else p.bytes ++ o.bytes) (if q || r then some [] else z)
          ≡ receive_bytes o.bytes
              (if q then some [] else receive_bytes p.bytes (if r then some [] else z))
    by_restart true r z = refl
    by_restart false true z = refl
    by_restart false false none = refl
    by_restart false false (some b) = ap some (sym (append_assoc b p.bytes o.bytes))

kept-seen_after :
    (blob : Option Bytes) (p : Output) (x : Step)
    → kept blob (seen_after p x) ≡ kept (receive blob p) (seen x)
unfolding kept seen_after seen
kept-seen_after blob p (ok r) =
    ap {A = Option Bytes} (λ z. ok (view r.0, z)) (receive-join blob p r.1)
kept-seen_after blob p (err f) = refl

join-after : (p : Output) → join p no_output ≡ p
unfolding join
join-after p = ap {A = Bytes} (λ z. record { restart = p.restart; bytes = z }) (append-nil p.bytes)

receive-nothing : (blob : Option Bytes) → receive blob no_output ≡ blob
unfolding receive receive_bytes
receive-nothing none = refl
receive-nothing (some b) = ap some (append-nil b)

-- A piece, then the rest of the body.
piece_then :
    (is_numeral : Bytes → Bool) (rest : Bytes) (blob : Option Bytes)
    (f : Scanner → Option Bytes → Result ScanError (Scanner × Option Bytes))
    → ((s : Scanner) (b : Option Bytes)
        → kept_seen (kind (f s b)) ≡ kept b (seen (byte_run is_numeral rest s no_output)))
    → (x : Result ScanError (Scanner × Output)) (y : Step) → seen (kind x) ≡ seen y
    → kept_seen (kind (x >>= λ r. f r.0 (receive blob r.1)))
      ≡ kept blob (seen (y >>= λ r. byte_run is_numeral rest r.0 r.1))
unfolding kind seen kept kept_seen
piece_then is_numeral rest blob f each (ok r) (ok q) h =
    let states : view q.0 ≡ view r.0 = cc in
    let outs : r.1 ≡ q.1 = cc in
    each r.0 (receive blob r.1)
    ∙ sym (kept-seen_after blob r.1 (byte_run is_numeral rest r.0 no_output))
    ∙ ap (kept blob) (
        sym (seen_of-Alike (byte_run-view is_numeral rest q.0 r.0 r.1 no_output states))
        ∙ ap (λ z. seen (byte_run is_numeral rest q.0 z)) (join-after r.1 ∙ outs))
piece_then is_numeral rest blob f each (ok r) (err g) h = cc
piece_then is_numeral rest blob f each (err (ScanError.syntax at what)) (ok q) h = cc
piece_then is_numeral rest blob f each (err (ScanError.too_long what)) (ok q) h = cc
piece_then is_numeral rest blob f each (err (ScanError.syntax at what)) (err g) h = cc
piece_then is_numeral rest blob f each (err (ScanError.too_long what)) (err g) h = cc

pieces_run :
    (is_numeral : Bytes → Bool) (pieces : List Bytes) (s : Scanner) (blob : Option Bytes)
    → kept_seen (kind (feed_pieces is_numeral pieces s blob))
      ≡ kept blob (seen (byte_run is_numeral (concat pieces) s no_output))
unfolding feed_pieces concat kind kept kept_seen byte_run seen
pieces_run is_numeral [] s blob =
    ap {A = Option Bytes} (λ z. ok (view s, z)) (sym (receive-nothing blob))
pieces_run is_numeral (piece ∷ pieces) s blob =
    piece_then is_numeral (concat pieces) blob (feed_pieces is_numeral pieces)
      (pieces_run is_numeral pieces) _ _ (feed_bytewise is_numeral piece s no_output)
    ∙ ap (λ x. kept blob (seen x))
        (sym (byte_run-append is_numeral piece (concat pieces) s no_output))

complete-view : (s : Scanner) → kind (complete s) ≡ kind (complete (view s))
unfolding complete kind view
complete-view s = by_end (is_end s.state)
  where
    by_end :
        (q : Bool)
        → ◌≡◌ {A = Result Fail Scanned}
            (kind (
              if q
              then ok (record { captured = s.captured; streamed = s.streamed })
              else err (ScanError.syntax s.offset "unexpected end of input")))
            (kind (
              if q
              then ok (record { captured = s.captured; streamed = s.streamed })
              else err (ScanError.syntax 0 "unexpected end of input")))
    by_end true = refl
    by_end false = refl

closing-view :
    (q : Bool) (s : Scanner)
    → kind (
        placed s 0 (
          if q
          then ok (value_done (record s { number = [] }))
          else err (Fail.syntax "invalid number"))
        >>= λ z. complete z)
      ≡ kind (
          placed (view s) 0 (
            if q
            then ok (value_done (record (view s) { number = [] }))
            else err (Fail.syntax "invalid number"))
          >>= λ z. complete z)
unfolding placed error value_done view kind
closing-view true s = complete-view (value_done (record s { number = [] }))
closing-view false s = refl

finish-view :
    (is_numeral : Bytes → Bool) (s : Scanner)
    → kind (finish is_numeral s) ≡ kind (finish is_numeral (view s))
unfolding finish end_number view
finish-view is_numeral s = by_number (is_number s.state)
  where
    by_number :
        (q : Bool)
        → kind ((if q then placed s 0 (end_number is_numeral s) else ok s) >>= λ z. complete z)
          ≡ kind (
              (if q then placed (view s) 0 (end_number is_numeral (view s)) else ok (view s))
              >>= λ z. complete z)
    by_number true = closing-view (is_numeral s.number) s
    by_number false = complete-view s

-- The end of the body, from what the caller sees.
unfoldable pub ended :
    (Bytes → Bool) → Result Fail (Scanner × Option Bytes) → Result Fail (Scanned × Option Bytes)
ended is_numeral (ok r) = kind (with_blob r.1 (finish is_numeral r.0))
ended is_numeral (err f) = err f

kind-with_blob :
    (blob : Option Bytes) (x : Result ScanError Scanned)
    → kind (with_blob blob x) ≡ with_blob blob (kind x)
unfolding kind with_blob
kind-with_blob blob (ok scanned) = refl
kind-with_blob blob (err (ScanError.syntax at what)) = refl
kind-with_blob blob (err (ScanError.too_long what)) = refl

pub scan_run :
    (is_numeral : Bytes → Bool) (pieces : List Bytes) (s : Scanner) (blob : Option Bytes)
    → kind (scan is_numeral pieces s blob)
      ≡ ended is_numeral (kept blob (seen (byte_run is_numeral (concat pieces) s no_output)))
unfolding scan ended kept_seen kind
scan_run is_numeral pieces s blob =
    finishing (feed_pieces is_numeral pieces s blob)
    ∙ ap (ended is_numeral) (pieces_run is_numeral pieces s blob)
  where
    finishing :
        (x : Result ScanError (Scanner × Option Bytes))
        → kind (x >>= λ r. with_blob r.1 (finish is_numeral r.0))
          ≡ ended is_numeral (kept_seen (kind x))
    finishing (ok r) =
        kind-with_blob r.1 (finish is_numeral r.0)
        ∙ ap (with_blob r.1) (finish-view is_numeral r.0)
        ∙ sym (kind-with_blob r.1 (finish is_numeral (view r.0)))
    finishing (err (ScanError.syntax at what)) = refl
    finishing (err (ScanError.too_long what)) = refl

-- A body scanned in pieces gives what it gives scanned as one piece, wherever it is cut: what the
-- document held, the streamed bytes, or the failure, its place apart.
pub scan-concat :
    (is_numeral : Bytes → Bool) (pieces : List Bytes) (s : Scanner) (blob : Option Bytes)
    → kind (scan is_numeral pieces s blob) ≡ kind (scan is_numeral (concat pieces ∷ []) s blob)
unfolding concat
scan-concat is_numeral pieces s blob =
    scan_run is_numeral pieces s blob
    ∙ ap (λ bs. ended is_numeral (kept blob (seen (byte_run is_numeral bs s no_output))))
        (sym (append-nil (concat pieces)))
    ∙ sym (scan_run is_numeral (concat pieces ∷ []) s blob)
