-- ===== src/JsonScan/Body.antt =====
-- src/upload.rs, `stage_json_base64`: a body fed to the scanner in pieces, and what is kept of the
-- member's last occurrence.
use remarkable_server.Base.{if◌then◌else◌, Bool, Option, none, some, List, [], ◌∷◌, ◌++◌, Bytes}
use remarkable_server.Base.Result.{Result, ok, err, ◌>>=◌}
use remarkable_server.JsonScan.{Scanned, Output, no_output, ScanError, Scanner}
use remarkable_server.JsonScan.Feed.{feed, finish}

-- A restart drops what was received before; what comes without one goes nowhere.
unfoldable pub receive_bytes : Bytes → Option Bytes → Option Bytes
receive_bytes bs none = none
receive_bytes bs (some blob) = some (blob ++ bs)

unfoldable pub receive : Option Bytes → Output → Option Bytes
unfolding receive_bytes
receive blob out = receive_bytes out.bytes (if out.restart then some [] else blob)

unfoldable pub feed_pieces :
    (Bytes → Bool) → List Bytes → Scanner → Option Bytes → Result ScanError (Scanner × Option Bytes)
unfolding feed receive
feed_pieces is_numeral [] s blob = ok (s, blob)
feed_pieces is_numeral (piece ∷ pieces) s blob =
    feed is_numeral piece s no_output >>= λ r. feed_pieces is_numeral pieces r.0 (receive blob r.1)

unfoldable pub with_blob :
    {E : Type 0} → Option Bytes → Result E Scanned → Result E (Scanned × Option Bytes)
with_blob blob (ok scanned) = ok (scanned, blob)
with_blob blob (err e) = err e

-- The whole body: what it held, and the bytes of the streamed member.
unfoldable pub scan :
    (Bytes → Bool) → List Bytes → Scanner → Option Bytes → Result ScanError (Scanned × Option Bytes)
unfolding feed_pieces finish with_blob
scan is_numeral pieces s blob =
    feed_pieces is_numeral pieces s blob >>= λ r. with_blob r.1 (finish is_numeral r.0)
