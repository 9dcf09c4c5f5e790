-- ===== src/JsonScan/ByByte/Runs.antt =====
-- Runs of bytes in src/json_scan.rs: a run of bytes depends on the view alone, can be cut anywhere,
-- and adds to what is out.
pub mod Emits
pub mod Escapes
pub mod Strings
pub mod Numbers
use remarkable_server.Base.{
  ℕ, ◌≡◌, refl, ap, ◌∙◌, sym, subst, if◌then◌else◌, Bool, true, false, ◌||◌, List, [], ◌∷◌, ◌++◌,
  Bytes,
}
use remarkable_server.Base.Result.{Result, ok, err, ◌>>=◌}
use remarkable_server.JsonScan.{Output, no_output, Fail, Scanner}
use remarkable_server.JsonScan.Structure.{Step}
use remarkable_server.JsonScan.ByByte.{shown, view, join, seen, seen_after, byte_in, byte_run}
use remarkable_server.JsonScan.ByByte.Alike.{Alike, alike, to_alike, hidden}
use remarkable_server.JsonScan.ByByte.Alike.OneByte.{byte_in-Alike}

pub seen_of-Alike : {p : Output} {x y : Step} → Alike p x y → seen x ≡ seen_after p y
seen_of-Alike (alike h) = h

byte_in-view :
    (is_numeral : Bytes → Bool) (b : ℕ) (s t : Scanner) (p o : Output)
    → view s ≡ view t
    → Alike p (byte_in is_numeral s.state b s (join p o)) (byte_in is_numeral t.state b t o)
unfolding view
byte_in-view is_numeral b s t p o h =
    subst
      (λ z. Alike p (byte_in is_numeral s.state b s (join p o)) (byte_in is_numeral z.state b z o))
      (ap {A = Scanner} (λ z. record z { key = t.key; text = t.text; offset = t.offset }) h)
      (byte_in-Alike s.key_long s.key t.key s.text_long s.text t.text s.offset t.offset p
        (ap (λ z. z.key) h ∙ ap (λ z. shown z t.key) (sym (ap (λ z. z.key_long) h)))
        (ap (λ z. z.text) h ∙ ap (λ z. shown z t.text) (sym (ap (λ z. z.text_long) h))) is_numeral
        s.state b s o)

Alike-then :
    (p : Output) (f : Scanner → Output → Step) (x y : Step)
    → Alike p x y
    → ((s t : Scanner) (o : Output) → view s ≡ view t → Alike p (f s (join p o)) (f t o))
    → Alike p (x >>= λ r. f r.0 r.1) (y >>= λ r. f r.0 r.1)
unfolding seen seen_after
Alike-then p f (ok r) (ok q) (alike h) each =
    let same : r.1 ≡ join p q.1 = cc in
    subst (λ z. Alike p (f r.0 z) (f q.0 q.1)) (sym same) (each r.0 q.0 q.1 cc)
Alike-then p f (ok r) (err y) (alike h) each = cc
Alike-then p f (err x) (ok q) (alike h) each = cc
Alike-then p f (err x) (err y) (alike h) each = alike h

pub byte_run-view :
    (is_numeral : Bytes → Bool) (bs : Bytes) (s t : Scanner) (p o : Output)
    → view s ≡ view t
    → Alike p (byte_run is_numeral bs s (join p o)) (byte_run is_numeral bs t o)
unfolding byte_run
byte_run-view is_numeral [] s t p o h = to_alike s t (join p o) o h refl
byte_run-view is_numeral (b ∷ bs) s t p o h =
    Alike-then p (byte_run is_numeral bs) _ _ (byte_in-view is_numeral b s t p o h)
      λ s' t' o' h'. byte_run-view is_numeral bs s' t' p o' h'

pub join-nothing : (o : Output) → join no_output o ≡ o
unfolding join
join-nothing o = restarted o.restart
  where
    restarted :
        (r : Bool)
        → ◌≡◌ {A = Output}
            (record { restart = r || false; bytes = if r then o.bytes else o.bytes })
            (record { restart = r; bytes = o.bytes })
    restarted true = refl
    restarted false = refl

byte_run-after_nothing :
    (is_numeral : Bytes → Bool) (bs : Bytes) (s t : Scanner) (o : Output)
    → view s ≡ view t
    → seen (byte_run is_numeral bs s o) ≡ seen_after no_output (byte_run is_numeral bs t o)
byte_run-after_nothing is_numeral bs s t o h =
    subst
      (λ q. seen (byte_run is_numeral bs s q) ≡ seen_after no_output (byte_run is_numeral bs t o))
      (join-nothing o) (seen_of-Alike (byte_run-view is_numeral bs s t no_output o h))

-- The bytes do the same from two states with one view.
pub byte_run-like :
    (is_numeral : Bytes → Bool) (bs : Bytes) (s t : Scanner) (o : Output)
    → view s ≡ view t
    → seen (byte_run is_numeral bs s o) ≡ seen (byte_run is_numeral bs t o)
byte_run-like is_numeral bs s t o h =
    byte_run-after_nothing is_numeral bs s t o h
    ∙ sym (byte_run-after_nothing is_numeral bs t t o refl)

then_then :
    (x : Step) (f g : Scanner → Output → Step)
    → (x >>= λ r. f r.0 r.1 >>= λ q. g q.0 q.1) ≡ ((x >>= λ r. f r.0 r.1) >>= λ q. g q.0 q.1)
then_then (ok r) f g = refl
then_then (err x) f g = refl

then_ap :
    (x : Step) (f g : Scanner → Output → Step)
    → ((s : Scanner) (o : Output) → f s o ≡ g s o)
    → (x >>= λ r. f r.0 r.1) ≡ (x >>= λ r. g r.0 r.1)
then_ap (ok r) f g each = each r.0 r.1
then_ap (err x) f g each = refl

pub byte_run-append :
    (is_numeral : Bytes → Bool) (xs bs : Bytes) (s : Scanner) (o : Output)
    → byte_run is_numeral (xs ++ bs) s o
      ≡ (byte_run is_numeral xs s o >>= λ r. byte_run is_numeral bs r.0 r.1)
unfolding byte_run
byte_run-append is_numeral [] bs s o = refl
byte_run-append is_numeral (x ∷ xs) bs s o =
    then_ap _ (byte_run is_numeral (xs ++ bs)) _ (byte_run-append is_numeral xs bs)
    ∙ then_then (byte_in is_numeral s.state x s o) (byte_run is_numeral xs) (byte_run is_numeral bs)
