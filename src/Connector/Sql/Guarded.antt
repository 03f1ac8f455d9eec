-- ===== src/Connector/Sql/Guarded.antt =====
-- What the SQL connectors ask a database, and what they return of its answer.
use ops_mcp.Config.Lookup.{get_database}
use ops_mcp.Config.Manager.{Manager}
use ops_mcp.Guard.Sql.{SqlError, Statement}
use ops_mcp.Guard.Sql.Bounded.{IsCleaned, IsLimit, IsQuery, ensure_select_iff}
use ops_mcp.Model.Database.{Database}
use ops_mcp.Model.Errors.{AppError}
use mathlib.Core.Path.{subst}
use ops_mcp.Prelude.Value.{Value}
use ops_mcp.Prelude.{
  List, Option, ◌≡◌, Result, ok, Str, map, none, >>=-eq-ok, sym, length, some, ok_injective, ◌∷◌,
  ◌∙◌, refl, ap, [], err, Bool-cases, ◌++◌, is_empty, Result-cases, str, ◌⊎◌, inl, inr, ◌>>=◌, ◌==◌,
  str_beq_iff, str_eq, ℤ,
}
use ops_mcp.Connector.Sql.{
  or_invalid_sql, ask, Drivers, Dialect, QueryRequest, Handle, open_ping, or_connector_error,
  lookup_database, guarded, prepare_query, run_query, query, QueryResult, Cell, normalize_value,
  Rows, unless_error, scan_rows, collect_rows,
}

scan_rows_lem :
    (rs : List (Result Str (List Cell))) (out : List (List Value))
    → scan_rows rs ≡ ok out
    → (cells : List (List Cell)) × (rs ≡ map (λ c. ok c) cells)
      × (out ≡ map (map normalize_value) cells)
unfolding scan_rows
scan_rows_lem [] out h = ([], refl, sym (ok_injective h))
scan_rows_lem (r ∷ rs) out h =
    let (c, e, h1) = >>=-eq-ok r _ h in
    let (rest, e1, h2) = >>=-eq-ok (scan_rows rs) _ h1 in
    let (cells, same, normal) = scan_rows_lem rs rest e1 in
    (
      c ∷ cells,
      (λ i. e i ∷ same i),
      sym (ok_injective h2) ∙ ap (λ l. map normalize_value c ∷ l) normal,
    )

-- Every row of the answer, with its values normalized, and no error on the way.
pub record IsWhole (rows : Rows) (r : QueryResult) : Type 0 where
  pub cells : List (List Cell)
  pub columns : rows.columns ≡ ok r.columns
  pub scanned : rows.scanned ≡ map (λ c. ok c) cells
  pub final : rows.final ≡ none
  pub normalized : r.rows ≡ map (map normalize_value) cells
  pub counted : r.row_count ≡ length r.rows

unless_error-eq-ok : (o : Option Str) → unless_error o ≡ ok tt → o ≡ none
unless_error-eq-ok none h = refl
unless_error-eq-ok (some e) h = absurd (cc h)

collect_rows-IsWhole : (rows : Rows) (r : QueryResult) → collect_rows rows ≡ ok r → IsWhole rows r
unfolding collect_rows
collect_rows-IsWhole rows r h =
    let (cols, e0, h0) = >>=-eq-ok rows.columns _ h in
    let (out, e1, h1) = >>=-eq-ok (scan_rows rows.scanned) _ h0 in
    let (_, e2, h2) = >>=-eq-ok (unless_error rows.final) _ h1 in
    let (cells, same, normal) = scan_rows_lem rows.scanned out e1 in
    let made = ok_injective h2 in
    record {
      cells = cells;
      columns = e0 ∙ ap (λ (q : QueryResult). ok q.columns) made;
      scanned = same;
      final = unless_error-eq-ok rows.final e2;
      normalized = ap (λ (q : QueryResult). q.rows) (sym made) ∙ normal;
      counted = subst (λ (q : QueryResult). q.row_count ≡ length q.rows) made refl;
    }

or_connector_error-eq-ok :
    {A : Type 0} (d : Drivers) (step : Str) (r : Result Str A) {a : A}
    → or_connector_error d step r ≡ ok a
    → r ≡ ok a
or_connector_error-eq-ok d step (ok x) h = cc
or_connector_error-eq-ok d step (err x) h = absurd (cc h)

or_invalid_sql-eq-ok :
    (r : Result SqlError Str) {safe : Str} → or_invalid_sql r ≡ ok safe → r ≡ ok safe
or_invalid_sql-eq-ok (ok s) h = cc
or_invalid_sql-eq-ok (err e) h = absurd (cc h)

module _ (d : Drivers) (cfg : Manager) (dialect : Dialect) (req : QueryRequest) where
  -- The statement that an open database is asked: on a database of the connector's type, the only
  -- statement of the request, a SELECT or a set operation, inside a SELECT with the limit of the
  -- database.
  pub record IsGuarded (safe : Str) : Type 0 where
    pub database : Database
    pub configured : get_database cfg req.database ≡ ok database
    pub of_its_type : database.db_type ≡ dialect.db_type
    pub statement : Statement
    pub q : Str
    pub limit : ℤ
    pub cleaned : IsCleaned req.sql q
    pub bounded : IsLimit database.limit limit
    pub single : d.parse q ≡ some (statement ∷ [])
    pub selects : IsQuery statement
    pub limited :
        safe ≡ str "SELECT * FROM (" ++ q ++ str ") AS _ops_mcp_q LIMIT " ++ d.decimal limit

  lookup_lem :
      (name : Str) (db : Database)
      → lookup_database d cfg dialect name ≡ ok db
      → (get_database cfg name ≡ ok db) × (db.db_type ≡ dialect.db_type)
  unfolding lookup_database
  lookup_lem name db h = elim (Bool-cases (is_empty name)) [
    | inl e ↦ absurd (cc (rw e at h))
    | inr e ↦ elim (Result-cases (get_database cfg name)) [
      | inl (x, f) ↦ absurd (cc (rw f at (rw e at h)))
      | inr (found, f) ↦
          let typed = rw f at (rw e at h) in
          elim (Bool-cases (found.db_type == dialect.db_type)) [
            | inr g ↦ absurd (cc (rw g at typed))
            | inl g ↦
                let same = ok_injective (rw g at typed) in
                (
                  f ∙ ap (λ (x : Database). ok x) same,
                  ap (λ (x : Database). x.db_type) (sym same)
                      ∙ (str_beq_iff found.db_type dialect.db_type).0 g,
                )
          ]
    ]
  ]

  prepare_query-IsGuarded :
      (handle : Handle) (safe : Str)
      → prepare_query d cfg dialect req ≡ ok (handle, safe)
      → IsGuarded safe
  unfolding prepare_query
  prepare_query-IsGuarded handle safe h =
      let (db, e0, h0) = >>=-eq-ok (lookup_database d cfg dialect req.database) _ h in
      let (s, e1, h1) = >>=-eq-ok (guarded d cfg dialect req.sql db.limit) _ h0 in
      let (k, e2, h2) =
        >>=-eq-ok
          (or_connector_error d (dialect.name ++ str " dial")
            (open_ping d dialect.name (dialect.dsn db)))
          _ h1 in
      let (found, typed) = lookup_lem req.database db e0 in
      let (q, limit, cleaned, bounded, iff) =
        ensure_select_iff d.parse d.decimal req.sql db.limit s in
      let (_, _, (st, single, sel), limited) = iff.0 (or_invalid_sql-eq-ok _ e1) in
      record {
        database = db;
        configured = found;
        of_its_type = typed;
        statement = st;
        q = q;
        limit = limit;
        cleaned = cleaned;
        bounded = bounded;
        single = single;
        selects = sel;
        limited = ap (λ (p : Handle × Str). p.1) (sym (ok_injective h2)) ∙ limited;
      }

  -- What the open database answers becomes the result: the whole of its rows, or an error.
  abbrev pub Answers : Handle → Str → Result AppError QueryResult → Type 0
  Answers handle safe (err e) = Unit
  Answers handle safe (ok r) =
      (rows : Rows) × (handle.query safe req.args ≡ ok rows) × IsWhole rows r

  ask-Answers :
      (handle : Handle) (safe : Str) (out : Result AppError QueryResult)
      → ask d cfg dialect req.args (handle, safe) ≡ out
      → Answers handle safe out
  unfolding query
  ask-Answers handle safe (err e) h = tt
  ask-Answers handle safe (ok r) h =
      let (rows, e, collected) =
        >>=-eq-ok (handle.query safe req.args) _
          (or_connector_error-eq-ok d (dialect.name ++ str " query") _ h) in
      (rows, e, collect_rows-IsWhole rows r collected)

  -- A query of MySQL or PostgreSQL either fails before any statement is sent, or it sends one
  -- statement: the only statement of the request, a SELECT or a set operation, inside a SELECT with
  -- the limit of the configured database, which is of the connector's type. A result has all the
  -- rows of the answer, with their number.
  pub run_query_lem :
      ((e : AppError) × (prepare_query d cfg dialect req ≡ err e)
        × (run_query d cfg dialect req ≡ err e))
      ⊎ ((handle : Handle) × (safe : Str) × (prepare_query d cfg dialect req ≡ ok (handle, safe))
          × IsGuarded safe
          × (run_query d cfg dialect req ≡ ask d cfg dialect req.args (handle, safe))
          × Answers handle safe (run_query d cfg dialect req))
  unfolding run_query
  run_query_lem = elim (Result-cases (prepare_query d cfg dialect req)) [
    | inl (e, h) ↦ inl (e, h, ap (λ p. p >>= ask d cfg dialect req.args) h)
    | inr ((handle, safe), h) ↦
        let asked = ap (λ p. p >>= ask d cfg dialect req.args) h in
        inr (
          handle,
          safe,
          h,
          prepare_query-IsGuarded handle safe h,
          asked,
          ask-Answers handle safe (run_query d cfg dialect req) (sym asked),
        )
  ]
