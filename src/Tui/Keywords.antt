-- ===== src/Tui/Keywords.antt =====
-- `SQL_KEYWORDS` of crates/tui/src/lib.rs.
use potatodb.Prelude.{ℕ, List, [], ◌∷◌}
use potatodb.Sql.Text.{codes}

abbrev pub sql_keywords : List (List ℕ)
sql_keywords =
    codes "SELECT"
    ∷ codes "FROM"
    ∷ codes "WHERE"
    ∷ codes "INSERT"
    ∷ codes "INTO"
    ∷ codes "VALUES"
    ∷ codes "UPDATE"
    ∷ codes "SET"
    ∷ codes "DELETE"
    ∷ codes "CREATE"
    ∷ codes "DROP"
    ∷ codes "ALTER"
    ∷ codes "TABLE"
    ∷ codes "INDEX"
    ∷ codes "VIEW"
    ∷ codes "JOIN"
    ∷ codes "LEFT"
    ∷ codes "RIGHT"
    ∷ codes "INNER"
    ∷ codes "OUTER"
    ∷ codes "CROSS"
    ∷ codes "ON"
    ∷ codes "AND"
    ∷ codes "OR"
    ∷ codes "NOT"
    ∷ codes "IN"
    ∷ codes "IS"
    ∷ codes "NULL"
    ∷ codes "AS"
    ∷ codes "ORDER"
    ∷ codes "BY"
    ∷ codes "GROUP"
    ∷ codes "HAVING"
    ∷ codes "LIMIT"
    ∷ codes "OFFSET"
    ∷ codes "ASC"
    ∷ codes "DESC"
    ∷ codes "DISTINCT"
    ∷ codes "COUNT"
    ∷ codes "SUM"
    ∷ codes "AVG"
    ∷ codes "MIN"
    ∷ codes "MAX"
    ∷ codes "CASE"
    ∷ codes "WHEN"
    ∷ codes "THEN"
    ∷ codes "ELSE"
    ∷ codes "END"
    ∷ codes "BEGIN"
    ∷ codes "COMMIT"
    ∷ codes "ROLLBACK"
    ∷ codes "PRIMARY"
    ∷ codes "KEY"
    ∷ codes "UNIQUE"
    ∷ codes "CHECK"
    ∷ codes "FOREIGN"
    ∷ codes "REFERENCES"
    ∷ codes "CONSTRAINT"
    ∷ codes "DEFAULT"
    ∷ codes "IF"
    ∷ codes "EXISTS"
    ∷ codes "LIKE"
    ∷ codes "ILIKE"
    ∷ codes "BETWEEN"
    ∷ codes "UNION"
    ∷ codes "ALL"
    ∷ codes "ANY"
    ∷ codes "SOME"
    ∷ codes "WITH"
    ∷ codes "RECURSIVE"
    ∷ codes "RETURNING"
    ∷ codes "EXPLAIN"
    ∷ codes "ANALYZE"
    ∷ codes "VACUUM"
    ∷ codes "TRUNCATE"
    ∷ codes "COPY"
    ∷ codes "GRANT"
    ∷ codes "REVOKE"
    ∷ codes "CASCADE"
    ∷ codes "RESTRICT"
    ∷ codes "INT"
    ∷ codes "INTEGER"
    ∷ codes "BIGINT"
    ∷ codes "SMALLINT"
    ∷ codes "VARCHAR"
    ∷ codes "TEXT"
    ∷ codes "BOOL"
    ∷ codes "BOOLEAN"
    ∷ codes "FLOAT"
    ∷ codes "DOUBLE"
    ∷ codes "DECIMAL"
    ∷ codes "DATE"
    ∷ codes "TIMESTAMP"
    ∷ codes "UUID"
    ∷ codes "SERIAL"
    ∷ codes "TRUE"
    ∷ codes "FALSE"
    ∷ codes "COALESCE"
    ∷ codes "CAST"
    ∷ codes "EXTRACT"
    ∷ codes "INTERVAL"
    ∷ codes "SEQUENCE"
    ∷ codes "FUNCTION"
    ∷ codes "PROCEDURE"
    ∷ codes "CALL"
    ∷ codes "DO"
    ∷ codes "PREPARE"
    ∷ codes "EXECUTE"
    ∷ codes "MATERIALIZED"
    ∷ codes "REFRESH"
    ∷ codes "FLUSH"
    ∷ codes "SHOW"
    ∷ codes "USE"
    ∷ codes "DESCRIBE"
    ∷ codes "NOTIFY"
    ∷ codes "LISTEN"
    ∷ codes "OVER"
    ∷ codes "PARTITION"
    ∷ codes "ROW_NUMBER"
    ∷ codes "RANK"
    ∷ codes "LAG"
    ∷ codes "LEAD"
    ∷ codes "NTILE"
    ∷ codes "WINDOW"
    ∷ codes "ROWS"
    ∷ codes "RANGE"
    ∷ codes "PRECEDING"
    ∷ codes "FOLLOWING"
    ∷ codes "UNBOUNDED"
    ∷ codes "CURRENT"
    ∷ codes "CONFLICT"
    ∷ codes "NOTHING"
    ∷ codes "UPSERT"
    ∷ []
