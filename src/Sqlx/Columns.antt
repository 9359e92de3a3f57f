-- ===== src/Sqlx/Columns.antt =====
-- The SQL types of crates/libs/lib-lualib/src/lua_sqlx.rs by name: the types of NULL parameters, and
-- those of result columns.
pub mod Unique
use lrust.Base.{List, [], ◌∷◌, Bool, false, ◌||◌, Option, none, some, if◌then◌else◌}
use lrust.Base.Text.{Bytes, codes}
use lrust.Sqlx.Types.{same_bytes}

pub data DbType : Type 0 where
  int8 uint8 int16 uint16 int32 uint32 int64 uint64 float32 float64 text bool timestamp timestamp_tz
        date time uuid bytes json null unsupported_decimal time_tz unknown :
      DbType

abbrev pub TypeNames : Type 0 → Type 0
TypeNames A = List (Bytes × A)

-- The first entry of a name.
unfoldable pub named : {A : Type 0} → TypeNames A → Bytes → Option A
named [] name = none
named ((n, a) ∷ rest) name =
    let later = named rest name in if same_bytes n name then some a else later

-- `DB_TYPE_MAP`.
abbrev pub db_type_map : TypeNames DbType
db_type_map =
    (codes "INT4", DbType.int32)
    ∷ (codes "INT", DbType.int32)
    ∷ (codes "INTEGER", DbType.int32)
    ∷ (codes "MEDIUMINT", DbType.int32)
    ∷ (codes "INT8", DbType.int64)
    ∷ (codes "BIGINT", DbType.int64)
    ∷ (codes "INT2", DbType.int16)
    ∷ (codes "SMALLINT", DbType.int16)
    ∷ (codes "TINYINT", DbType.int8)
    ∷ (codes "FLOAT8", DbType.float64)
    ∷ (codes "DOUBLE", DbType.float64)
    ∷ (codes "FLOAT4", DbType.float32)
    ∷ (codes "FLOAT", DbType.float32)
    ∷ (codes "REAL", DbType.float32)
    ∷ (codes "TEXT", DbType.text)
    ∷ (codes "VARCHAR", DbType.text)
    ∷ (codes "CHAR", DbType.text)
    ∷ (codes "BPCHAR", DbType.text)
    ∷ (codes "NAME", DbType.text)
    ∷ (codes "TINYTEXT", DbType.text)
    ∷ (codes "MEDIUMTEXT", DbType.text)
    ∷ (codes "LONGTEXT", DbType.text)
    ∷ (codes "NVARCHAR", DbType.text)
    ∷ (codes "NCHAR", DbType.text)
    ∷ (codes "BOOL", DbType.bool)
    ∷ (codes "BOOLEAN", DbType.bool)
    ∷ (codes "TIMESTAMP", DbType.timestamp)
    ∷ (codes "TIMESTAMPTZ", DbType.timestamp_tz)
    ∷ (codes "DATETIME", DbType.timestamp)
    ∷ (codes "DATE", DbType.date)
    ∷ (codes "TIME", DbType.time)
    ∷ (codes "UUID", DbType.uuid)
    ∷ (codes "BYTEA", DbType.bytes)
    ∷ (codes "BLOB", DbType.bytes)
    ∷ (codes "VARBINARY", DbType.bytes)
    ∷ (codes "BINARY", DbType.bytes)
    ∷ (codes "TINYBLOB", DbType.bytes)
    ∷ (codes "MEDIUMBLOB", DbType.bytes)
    ∷ (codes "LONGBLOB", DbType.bytes)
    ∷ (codes "JSON", DbType.json)
    ∷ (codes "JSONB", DbType.json)
    ∷ (codes "NULL", DbType.null)
    ∷ (codes "DECIMAL", DbType.unsupported_decimal)
    ∷ (codes "NUMERIC", DbType.unsupported_decimal)
    ∷ (codes "MONEY", DbType.unsupported_decimal)
    ∷ (codes "TIMETZ", DbType.time_tz)
    ∷ (codes "TINYINT UNSIGNED", DbType.uint8)
    ∷ (codes "SMALLINT UNSIGNED", DbType.uint16)
    ∷ (codes "INT UNSIGNED", DbType.uint32)
    ∷ (codes "MEDIUMINT UNSIGNED", DbType.uint32)
    ∷ (codes "BIGINT UNSIGNED", DbType.uint64)
    ∷ []

abbrev pub or_unknown : Option DbType → DbType
or_unknown none = DbType.unknown
or_unknown (some t) = t

unfoldable pub from_name : Bytes → DbType
from_name name = or_unknown (named db_type_map name)

-- `HashSet::insert` gives whether the name is new.
unfoldable pub has_name : Bytes → List Bytes → Bool
has_name name [] = false
has_name name (n ∷ ns) = same_bytes n name || has_name name ns

-- The first column whose name an earlier one has, if any; the error names it.
unfoldable pub duplicate_after : List Bytes → List Bytes → Option Bytes
duplicate_after names [] = none
duplicate_after names (name ∷ rest) =
    let later = duplicate_after (name ∷ names) rest in
    if has_name name names then some name else later

unfoldable pub ensure_unique_columns : List Bytes → Option Bytes
ensure_unique_columns columns = duplicate_after [] columns
