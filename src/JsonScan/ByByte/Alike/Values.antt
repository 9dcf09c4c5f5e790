-- ===== src/JsonScan/ByByte/Alike/Values.antt =====
-- src/json_scan.rs outside strings, and one byte in all: the same on two states with one view.
use remarkable_server.Base.{
  ℕ, ◌==◌, ◌≡◌, refl, leb, if◌then◌else◌, Bool, subst, true, false, ◌&&◌, ◌||◌, List, [], ◌∷◌,
  length, Bytes, Option, none, some, codes,
}
use remarkable_server.Base.Result.{ok}
use remarkable_server.JsonScan.{Member, Streamed, Output, State, Container, Role, Target, Scanner}
use remarkable_server.JsonScan.Structure.{
  set_elem, begin_string, value_done, close, member_here, open_string, mark_not_string,
  open_container, open_literal, open_number, open_value, silent, begin_value, open_key, expect_key,
  set_state, after_value, by_state, structural,
}
use remarkable_server.JsonScan.Text.{target, end_key, end_captured, end_string_as, end_string}
use remarkable_server.JsonScan.ByByte.{shown, join, string_byte}
use remarkable_server.JsonScan.ByByte.Alike.{
  Alike, Quiet, quiet, Alike-if, Alike-silent, Quiet-if, fails, Quiet-fails, hidden, same,
}
use remarkable_server.JsonScan.ByByte.Alike.Strings.{emit-Alike, escape_byte-Alike}

module _ (l : Bool) (k k' : Bytes) (u : Bool) (t t' : Bytes) (n n' : ℕ) (p : Output)
    (e : shown l k ≡ shown l k') (d : shown u t ≡ shown u t') where
  pub Quiet-ok :
      {o : Output} (s : Scanner) → Quiet p o (ok (hidden l k u t n s)) (ok (hidden l k' u t' n' s))
  unfolding silent
  Quiet-ok s = quiet (same l k k' u t t' n n' p e d s _)

end_key-Quiet :
    (l : Bool) (k k' : Bytes) (u : Bool) (t t' : Bytes) (n n' : ℕ) (p : Output)
    (e : shown l k ≡ shown l k') (d : shown u t ≡ shown u t') (s : Scanner) (o : Output)
    → Quiet p o (end_key (hidden l k u t n s)) (end_key (hidden l k' u t' n' s))
unfolding end_key target shown
end_key-Quiet true k k' u t t' n n' p e d s o = Quiet-if _ Quiet-fails (
    Quiet-ok true k k' u t t' n n' p e d (record s {
      member = if length s.stack == 1 then Target.other else s.member;
      state = State.colon;
    }))
end_key-Quiet false k k' u t t' n n' p e d s o =
    subst (λ z. Quiet p o (end_key (hidden false k u t n s)) (end_key (hidden false z u t' n' s))) e
      (Quiet-if _ Quiet-fails (
        Quiet-ok false k k u t t' n n' p refl d (record s {
          member = if length s.stack == 1 then target (hidden false k u t n s) else s.member;
          state = State.colon;
        })))

end_captured-Quiet :
    (l : Bool) (k k' : Bytes) (u : Bool) (t t' : Bytes) (n n' : ℕ) (p : Output)
    (e : shown l k ≡ shown l k') (d : shown u t ≡ shown u t') (i : ℕ) (s : Scanner) (o : Output)
    → Quiet p o (end_captured i (hidden l k u t n s)) (end_captured i (hidden l k' u t' n' s))
unfolding end_captured value_done shown
end_captured-Quiet l k k' true t t' n n' p e d i s o =
    Quiet-ok l k k' true t t' n n' p e refl
      (value_done (record s { captured = set_elem s.captured i Member.too_long }))
end_captured-Quiet l k k' false t t' n n' p e d i s o =
    subst
      (λ z.
        Quiet p o (end_captured i (hidden l k false t n s))
          (end_captured i (hidden l k' false z n' s)))
      d
      (Quiet-if _
        (Quiet-ok l k k' false [] [] n n' p e refl
          (value_done (record s { captured = set_elem s.captured i (Member.text t) })))
        Quiet-fails)

module _ (l : Bool) (k k' : Bytes) (u : Bool) (t t' : Bytes) (n n' : ℕ) (p : Output)
    (e : shown l k ≡ shown l k') (d : shown u t ≡ shown u t') where
  end_string_as-Quiet :
      (r : Role) (s : Scanner) (o : Output)
      → Quiet p o (end_string_as r (hidden l k u t n s)) (end_string_as r (hidden l k' u t' n' s))
  unfolding end_string_as value_done
  end_string_as-Quiet Role.key s o = end_key-Quiet l k k' u t t' n n' p e d s o
  end_string_as-Quiet Role.streamed s o = Quiet-ok l k k' u t t' n n' p e d (value_done s)
  end_string_as-Quiet (Role.captured i) s o = end_captured-Quiet l k k' u t t' n n' p e d i s o
  end_string_as-Quiet Role.skipped s o = Quiet-ok l k k' u t t' n n' p e d (value_done s)

  pub string_byte-Alike :
      (b : ℕ) (s : Scanner) (o : Output)
      → Alike p
          (string_byte b (hidden l k u t n s) (join p o))
          (string_byte b (hidden l k' u t' n' s) o)
  unfolding string_byte end_string
  string_byte-Alike b s o = Alike-if _ (Alike-silent (end_string_as-Quiet s.role s o)) (
      Alike-if _ (emit-Alike l k k' u t t' n n' p e d (b ∷ []) s o)
        (escape_byte-Alike l k k' u t t' n n' p e d s.esc b s o))

  open_string-Alike :
      (m : Option Target) (s : Scanner) (o : Output)
      → Alike p
          (ok (open_string m (hidden l k u t n s) (join p o)))
          (ok (open_string m (hidden l k' u t' n' s) o))
  unfolding open_string begin_string join
  open_string-Alike none s o = same l k k' u t t' n n' p e d (begin_string Role.skipped s) o
  open_string-Alike (some Target.streamed) s o =
      same l k k' u t t' n n' p e d
        (begin_string Role.streamed (record s { streamed = Streamed.text }))
        (record { restart = true; bytes = [] })
  open_string-Alike (some (Target.captured i)) s o =
      same l k k' false [] [] n n' p e refl (begin_string (Role.captured i) s) o
  open_string-Alike (some Target.other) s o =
      same l k k' u t t' n n' p e d (begin_string Role.skipped s) o

  open_container-Quiet :
      (c : Container) (st : State) (s : Scanner) {o : Output}
      → Quiet p o
          (open_container c st (hidden l k u t n s))
          (open_container c st (hidden l k' u t' n' s))
  unfolding open_container
  open_container-Quiet c st s =
      Quiet-if _ Quiet-fails
        (Quiet-ok l k k' u t t' n n' p e d (record s { stack = c ∷ s.stack; state = st }))

  open_value-Quiet :
      (b : ℕ) (s : Scanner) (o : Output)
      → Quiet p o (open_value b (hidden l k u t n s)) (open_value b (hidden l k' u t' n' s))
  unfolding open_value open_literal open_number
  open_value-Quiet b s o =
      Quiet-if (b == 0x7B) (open_container-Quiet Container.object State.object_start s) (
        Quiet-if (b == 0x5B) (open_container-Quiet Container.array State.array_start s) (
          Quiet-if (b == 0x74) (Quiet-ok l k k' u t t' n n' p e d (open_literal (codes "rue") s)) (
            Quiet-if (b == 0x66) (Quiet-ok l k k' u t t' n n' p e d (open_literal (codes "alse") s))
              (Quiet-if (b == 0x6E)
                (Quiet-ok l k k' u t t' n n' p e d (open_literal (codes "ull") s))
                (Quiet-if (b == 0x2D || (leb 0x30 b && leb b 0x39))
                  (Quiet-ok l k k' u t t' n n' p e d (open_number b s)) Quiet-fails)))))

  mark-Quiet :
      (b : ℕ) (m : Option Target) (s : Scanner) (o : Output)
      → Quiet p o
          (open_value b (mark_not_string m (hidden l k u t n s)))
          (open_value b (mark_not_string m (hidden l k' u t' n' s)))
  unfolding mark_not_string
  mark-Quiet b none s o = open_value-Quiet b s o
  mark-Quiet b (some Target.streamed) s o =
      open_value-Quiet b (record s { streamed = Streamed.not_string }) o
  mark-Quiet b (some (Target.captured i)) s o =
      open_value-Quiet b (record s { captured = set_elem s.captured i Member.not_string }) o
  mark-Quiet b (some Target.other) s o = open_value-Quiet b s o

  begin_value-Alike :
      (b : ℕ) (s : Scanner) (o : Output)
      → Alike p
          (begin_value b (hidden l k u t n s) (join p o))
          (begin_value b (hidden l k' u t' n' s) o)
  unfolding begin_value
  begin_value-Alike b s o =
      Alike-if _ (open_string-Alike (member_here s.member s.stack) s o)
        (Alike-silent (mark-Quiet b (member_here s.member s.stack) s o))

  close-Alike :
      (s : Scanner) (o : Output)
      → Alike p (ok (close (hidden l k u t n s), join p o)) (ok (close (hidden l k' u t' n' s), o))
  unfolding close value_done
  close-Alike s o = same l k k' u t t' n n' p e d (close s) o

  expect_key-Quiet :
      (first : Bool) (b : ℕ) (s : Scanner) (o : Output)
      → Quiet p o
          (expect_key first b (hidden l k u t n s))
          (expect_key first b (hidden l k' u t' n' s))
  unfolding expect_key open_key begin_string silent shown
  expect_key-Quiet first b s o =
      Quiet-if (b == 0x22)
        (quiet (
          same false [] [] u t t' n n' p refl d
            (begin_string Role.key (record s { first_key = first })) o))
        Quiet-fails

  after_value-Quiet :
      (b : ℕ) (cs : List Container) (s : Scanner) (o : Output)
      → Quiet p o (after_value b cs (hidden l k u t n s)) (after_value b cs (hidden l k' u t' n' s))
  unfolding after_value close value_done set_state
  after_value-Quiet b [] s o = Quiet-fails
  after_value-Quiet b (Container.object ∷ cs) s o =
      Quiet-if _ (Quiet-ok l k k' u t t' n n' p e d (set_state State.key s))
        (Quiet-if _ (Quiet-ok l k k' u t t' n n' p e d (close s)) Quiet-fails)
  after_value-Quiet b (Container.array ∷ cs) s o =
      Quiet-if _ (Quiet-ok l k k' u t t' n n' p e d (set_state State.value s))
        (Quiet-if _ (Quiet-ok l k k' u t t' n n' p e d (close s)) Quiet-fails)

  by_state-Alike :
      (st : State) (b : ℕ) (s : Scanner) (o : Output)
      → Alike p
          (by_state st b (hidden l k u t n s) (join p o))
          (by_state st b (hidden l k' u t' n' s) o)
  unfolding by_state set_state
  by_state-Alike State.value b s o = begin_value-Alike b s o
  by_state-Alike State.array_start b s o = Alike-if _ (close-Alike s o) (begin_value-Alike b s o)
  by_state-Alike State.object_start b s o =
      Alike-if _ (close-Alike s o) (Alike-silent (expect_key-Quiet true b s o))
  by_state-Alike State.key b s o = Alike-silent (expect_key-Quiet false b s o)
  by_state-Alike State.colon b s o =
      Alike-if _ (same l k k' u t t' n n' p e d (set_state State.value s) o) fails
  by_state-Alike State.after_value b s o = Alike-silent (after_value-Quiet b s.stack s o)
  by_state-Alike State.str b s o = fails
  by_state-Alike State.number b s o = fails
  by_state-Alike State.literal b s o = fails
  by_state-Alike State.end b s o = fails

  pub structural-Alike :
      (b : ℕ) (s : Scanner) (o : Output)
      → Alike p
          (structural b (hidden l k u t n s) (join p o))
          (structural b (hidden l k' u t' n' s) o)
  unfolding structural
  structural-Alike b s o =
      Alike-if _ (same l k k' u t t' n n' p e d s o) (by_state-Alike s.state b s o)
