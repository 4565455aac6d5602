-- ===== src/Tests/ToyTable.antt =====
-- A stand-in for SQLite: the table itself, which never fails.
use chatcommons.Prelude.{
  ℕ, ◌≡◌, some, List, [], ◌∷◌, ◌+◌, length, Result, ok, err, if◌then◌else◌, true, false, Bool, ap,
  sym, arith, eq_option, is_none, ◌||◌, ◌&&◌, ◌==◌,
}
use chatcommons.Prelude.Bytes.{Bytes, pos}
use chatcommons.Prelude.Maps
use chatcommons.Prelude.Maps.{Map}
use chatcommons.Protocol.{EventId, CommunityId}
use chatcommons.Storage.{Sqlite, DocumentedSqlite, Row, body_in}

abbrev pub put : Map Row → EventId → Row → Bool → Result (Unit {0}) ℕ × Map Row
put m id row true = (ok 0, m)
put m id row false = (ok 1, Maps.insert id row m)

abbrev total : Map Row → ℕ
total [] = 0
total ((id, row) ∷ m) = length row.1 + total m

abbrev bodies : CommunityId → Map Row → List (Result (Unit {0}) Bytes)
bodies community [] = []
bodies community ((id, row) ∷ m) =
    if eq_option row.0 (some community) || (is_none row.0 && id == community)
    then ok row.1 ∷ bodies community m
    else bodies community m

abbrev pub toy_sqlite : Sqlite
toy_sqlite = record {
  Connection = Map Row;
  Failure = Unit;
  insert_or_ignore = λ m id community body. put m id (community, body) (Maps.contains_key id m);
  count_rows = λ m. ok (pos (length m));
  sum_lengths = λ m. ok (pos (total m));
  select_body = λ m id. ok (body_in (Maps.lookup id m));
  select_bodies = λ m community. ok (bodies community m);
}

pub put_fresh :
    (m m' : Map Row) (id : EventId) (row : Row) (n : ℕ) (b : Bool)
    → put m id row b ≡ (ok n, m')
    → b ≡ false
    → (n ≡ 1) × (m' ≡ Maps.insert id row m)
put_fresh m m' id row n true e h = cc
put_fresh m m' id row n false e h = (ground arith, sym (ap (λ x. x.1) e))

pub put_ignored :
    (m m' : Map Row) (id : EventId) (row : Row) (n : ℕ) (b : Bool)
    → put m id row b ≡ (ok n, m')
    → b ≡ true
    → (n ≡ 0) × (m' ≡ m)
put_ignored m m' id row n false e h = cc
put_ignored m m' id row n true e h = (ground arith, sym (ap (λ x. x.1) e))

pub put_failed :
    (m m' : Map Row) (id : EventId) (row : Row) (f : Unit {0}) (b : Bool)
    → put m id row b ≡ (err f, m')
    → m' ≡ m
put_failed m m' id row f true e = cc
put_failed m m' id row f false e = absurd (ground arith)

unfoldable pub toy_sqlite-Documented : DocumentedSqlite toy_sqlite
toy_sqlite-Documented = record {
  rows = λ m. m;
  insert_fresh = λ m id community body n m' e h. put_fresh m m' id (community, body) n _ e h;
  insert_ignored = λ m id community body n m' e h. put_ignored m m' id (community, body) n _ e h;
  insert_failed = λ m id community body f m' e. put_failed m m' id (community, body) f _ e;
  selected = λ m id body e. ground arith;
}
