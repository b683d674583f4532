-- ===== src/Batch/Landing.antt =====
-- src/alfabetizacao_pipeline/batch/runner.py: the check of a landing file and its content identity.
-- pyarrow's reader is a parameter, which gives the schema, the codec of each column chunk and the
-- rows of the record batches, in order. SHA-256 is a parameter.
pub mod Multiset
use Prim.Native.Char.{code}
use tech_challenge_fase2_alf.Prelude.Results.{◌>>=◌, ◌>>◌, raise_if}
use tech_challenge_fase2_alf.Prelude.Results.{Result, ok, err}
use tech_challenge_fase2_alf.Prelude.{
  ◌≡◌, String, Option, List, String-discrete, Eq, ℕ, Bool, length, ◌+◌, map, not, ◌^◌, [], ◌∷◌,
  false, ◌++◌, ◌%◌, ◌==◌, true, is_empty, suc, ◌*◌, some, ◌&&◌, ◌/◌, none, string_eq, all, zero,
  ◌||◌,
}
use tech_challenge_fase2_alf.Batch.Errors.{BatchError, landing_schema, invalid_parquet}
use tech_challenge_fase2_alf.Batch.Models.{Bytes, BigQueryType, SourceColumn, SourceContract}
use tech_challenge_fase2_alf.Batch.Planner.{contract_of}

pub data ArrowType : Type 0 where
  arrow_int64 arrow_float64 arrow_string : ArrowType
  -- Any other type of pyarrow.
  arrow_other : ArrowType

pub record ArrowField : Type 0 where
  pub name : String
  pub data_type : ArrowType
  pub nullable : Bool

-- A scalar of a record batch: the class of the Python object, and the bytes of `str(value)`, or
-- none for a null.
pub record Cell : Type 0 where
  pub kind : ArrowType
  pub text : Option Bytes

pub record ParquetFile : Type 0 where
  pub schema : List ArrowField
  pub codecs : List String
  pub rows : List (List Cell)

unfoldable pub ArrowField-discrete : Discrete ArrowField
unfolding String-discrete
ArrowField-discrete = hlevel String-discrete

instance unfoldable pub arrow_field_eq : Eq ArrowField
unfolding ArrowField-discrete
arrow_field_eq = record { dec = ArrowField-discrete }

abbrev pub arrow_type : BigQueryType → ArrowType
arrow_type BigQueryType.int64 = arrow_int64
arrow_type BigQueryType.float64 = arrow_float64
arrow_type BigQueryType.string = arrow_string

unfoldable pub expected_schema : List SourceColumn → List ArrowField
expected_schema = map (λ c. record {
  name = c.name;
  data_type = arrow_type c.data_type;
  nullable = c.mode == "NULLABLE";
})

-- `schema_arrow.equals(expected_schema)`: the same fields in the same order.
unfoldable pub same_schema : List ArrowField → List ArrowField → Bool
same_schema [] [] = true
same_schema (f ∷ fs) (g ∷ gs) = f == g && same_schema fs gs
same_schema _ _ = false

-- `codecs != {"SNAPPY"}`, of the upper-case names.
abbrev pub only_snappy : List String → Bool
only_snappy codecs = not (is_empty codecs) && all (λ c. c == "SNAPPY") codecs

module _ (open_parquet : Bytes → Option ParquetFile) where
  unfoldable pub validated_parquet_file : Bytes → String → Result BatchError ParquetFile
  validated_parquet_file payload source = elim (open_parquet payload) [
    | none ↦ err invalid_parquet
    | some file ↦ do
      contract ← contract_of source
      raise_if
          (not (same_schema file.schema (expected_schema contract.columns))
            || not (only_snappy file.codecs))
          (landing_schema source)
      ok file
  ]

-- 2 ^ 256
abbrev pub fingerprint_modulus : ℕ
fingerprint_modulus = 2 ^ 256

-- `n.to_bytes(width, byteorder="big")`
unfoldable pub to_bytes : ℕ → ℕ → Bytes
to_bytes zero n = []
to_bytes (suc width) n = to_bytes width (n / 256) ++ (n % 256 ∷ [])

-- `int.from_bytes(bytes, byteorder="big")`
unfoldable pub from_bytes : ℕ → Bytes → ℕ
from_bytes acc [] = acc
from_bytes acc (b ∷ bs) = from_bytes (acc * 256 + b) bs

-- The bytes of an ASCII text.
abbrev pub utf8 : String → Bytes
utf8 String.[] = []
utf8 (String.◌∷◌ c s) = code c ∷ utf8 s

abbrev pub type_name : BigQueryType → String
type_name BigQueryType.int64 = "INT64"
type_name BigQueryType.float64 = "FLOAT64"
type_name BigQueryType.string = "STRING"

abbrev pub is_supported : ArrowType → Bool
is_supported arrow_other = false
is_supported _ = true

abbrev pub valid_flag : Option Bytes → Bytes
valid_flag none = 0 ∷ []
valid_flag (some text) = 1 ∷ []

abbrev pub encoded : Option Bytes → Bytes
encoded none = []
encoded (some text) = text

-- What one scalar adds to the row's hash.
unfoldable pub cell_bytes : SourceColumn → Cell → Bytes
cell_bytes column cell =
    let name = utf8 column.name in
    to_bytes 2 (length name)
    ++ (name
        ++ (utf8 (type_name column.data_type)
            ++ (valid_flag cell.text
                ++ (to_bytes 8 (length (encoded cell.text)) ++ encoded cell.text))))

-- The bytes that the row's hash reads. A row has a cell for each column, by the schema.
unfoldable pub row_bytes : String → List SourceColumn → List Cell → Result BatchError Bytes
row_bytes source [] cells = ok []
row_bytes source (c ∷ cs) [] = ok []
row_bytes source (c ∷ cs) (cell ∷ cells) = do
  raise_if (not (is_supported cell.kind)) (landing_schema source)
  rest ← row_bytes source cs cells
  ok (cell_bytes c cell ++ rest)

-- `(row_count, first_sum, second_sum)`
pub record Identity : Type 0 where
  pub row_count : ℕ
  pub first_sum : ℕ
  pub second_sum : ℕ

abbrev pub no_rows : Identity
no_rows = record { row_count = 0; first_sum = 0; second_sum = 0 }

module _ (sha256 : Bytes → Bytes) where
  -- The two hashes of one row, as integers.
  unfoldable pub first_hash : Bytes → ℕ
  first_hash digest = from_bytes 0 (sha256 (1 ∷ digest))

  unfoldable pub second_hash : Bytes → ℕ
  second_hash digest = from_bytes 0 (sha256 (2 ∷ digest))

  unfoldable pub add_row : Identity → Bytes → Identity
  add_row i bytes =
      let digest = sha256 bytes in
      record {
        row_count = i.row_count + 1;
        first_sum = (i.first_sum + first_hash digest) % fingerprint_modulus;
        second_sum = (i.second_sum + second_hash digest) % fingerprint_modulus;
      }

  -- The loop of `_reader_identity` over the rows of all record batches.
  unfoldable pub reader_loop :
      String → List SourceColumn → Identity → List (List Cell) → Result BatchError Identity
  reader_loop source columns i [] = ok i
  reader_loop source columns i (row ∷ rows) = do
    bytes ← row_bytes source columns row
    reader_loop source columns (add_row i bytes) rows

  unfoldable pub reader_identity : ParquetFile → String → Result BatchError Identity
  reader_identity file source = do
    contract ← contract_of source
    reader_loop source contract.columns no_rows file.rows

module _ (sha256 : Bytes → Bytes) (open_parquet : Bytes → Option ParquetFile) where
  unfoldable pub parquet_identity : Bytes → String → Result BatchError Identity
  parquet_identity payload source = do
    file ← validated_parquet_file open_parquet payload source
    reader_identity sha256 file source
