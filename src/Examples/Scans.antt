-- ===== src/Examples/Scans.antt =====
-- The theorems on the JSON scanner at concrete bodies.
use remarkable_server.Base.{◌≡◌, refl, true, none, some, List, [], ◌∷◌, Bytes, Bool, codes}
use remarkable_server.Base.Result.{ok}
use remarkable_server.JsonScan.{Member, Streamed, Scanner, new}
use remarkable_server.JsonScan.Feed.{feed, is_plain}
use remarkable_server.JsonScan.ByByte.Turns.{kind}
use remarkable_server.JsonScan.Body.{scan, feed_pieces, receive, receive_bytes}
use remarkable_server.JsonScan.Chunks.{concat, scan-concat}
use remarkable_server.JsonScan.Payload.{inside, payload_arrives}
use remarkable_server.JsonScan.Bounds.{IsBounded}
use remarkable_server.JsonScan.Bounds.Pieces.{pieces-IsBounded}

-- Stands for serde_json's test of a numeral.
abbrev any_numeral : Bytes → Bool
any_numeral digits = true

abbrev scanner : Scanner
unfolding new
scanner = new (codes "payload") (codes "filePath" ∷ []) 64

abbrev pieces : List Bytes
pieces = codes "{\"pay" ∷ codes "load\":\"QU" ∷ codes "JD\"}" ∷ []

scan-concat_example :
    kind (scan any_numeral pieces scanner none)
    ≡ kind (scan any_numeral (concat pieces ∷ []) scanner none)
scan-concat_example = scan-concat any_numeral pieces scanner none

payload_arrives_example :
    scan any_numeral pieces (new (codes "payload") (codes "filePath" ∷ []) 64) none
    ≡ ok (record { captured = Member.absent ∷ []; streamed = Streamed.text }, some (codes "QUJD"))
unfolding is_plain concat
payload_arrives_example =
    payload_arrives any_numeral (codes "filePath" ∷ []) 64 (codes "QUJD") pieces
      (refl, (refl, (refl, (refl, tt)))) refl

pieces-IsBounded_example : IsBounded 64 (record (inside [] 64) { offset = 12 })
unfolding feed_pieces feed new receive receive_bytes
pieces-IsBounded_example =
    pieces-IsBounded any_numeral (codes "payload") [] 64 (codes "{\"pay" ∷ codes "load\":\"" ∷ [])
      none (some []) (record (inside [] 64) { offset = 12 }) refl
