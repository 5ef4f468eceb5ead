-- ===== src/Cli/Dlq.antt =====
-- cmd/cli/cmd/dlq.go, `jobctl dlq list`: the rows of the table, before text/tabwriter aligns them.
use Prim.Native.Char.{code}
use Prim.Native.String.{[] as no_text, ◌∷◌ as before, ◌++◌}
use jobplane.Base.{
  ℕ, ◌+◌, ◌/◌, ◌%◌, String, Option, none, some, List, [], ◌∷◌, ◌++◌ as append, map, ltb, length,
  take, if◌then◌else◌,
}
use jobplane.Base.Int.{ℤ, pos, ltb_ℤ}
use jobplane.Api.{DlqExecutionResponse}
use jobplane.Cli.Client.{Wire, JobClient, ClientResult, received, list_dlq_executions}
use jobplane.Cli.Status.{Format}
use jobplane.Cli.Commands.{error_text}

-- The bytes of a character in UTF-8, by its code, as a string of Go holds them.
abbrev pub utf8 : ℕ → List ℕ
utf8 c =
    if ltb c 128
    then c ∷ []
    else if ltb c 2048
    then (192 + c / 64) ∷ (128 + c % 64) ∷ []
    else if ltb c 65536
    then (224 + c / 4096) ∷ (128 + c / 64 % 64) ∷ (128 + c % 64) ∷ []
    else (240 + c / 262144) ∷ (128 + c / 4096 % 64) ∷ (128 + c / 64 % 64) ∷ (128 + c % 64) ∷ []

unfoldable pub bytes_of : String → List ℕ
bytes_of no_text = []
bytes_of (before c s) = append (utf8 (code c)) (bytes_of s)

-- "..."
abbrev pub ellipsis : List ℕ
ellipsis = 46 ∷ 46 ∷ 46 ∷ []

-- A long message is cut after 47 of its bytes.
unfoldable pub shortened : List ℕ → List ℕ
shortened message = if ltb 50 (length message) then append (take 47 message) ellipsis else message

unfoldable pub error_cell : Option String → List ℕ
unfolding shortened bytes_of
error_cell none = []
error_cell (some text) = shortened (bytes_of text)

-- A row of the table: EXECUTION ID, JOB, ATTEMPTS, FAILED AT and ERROR.
pub record Row : Type 0 where
  pub execution_id : String
  pub job : String
  pub attempts : String
  pub failed_at : String
  pub error : List ℕ

-- What the command writes.
pub data Listing : Type 0 where
  line : String → Listing
  table : List Row → Listing

module _ (wire : Wire) (client : JobClient) (format : Format) where
  unfoldable pub row_of : DlqExecutionResponse → Row
  unfolding error_cell
  row_of e = record {
    execution_id = format.show_uuid e.execution_id;
    job = e.job_name;
    attempts = format.show_nat e.attempts;
    failed_at = format.show_time e.failed_at;
    error = error_cell e.error_message;
  }

  unfoldable pub listing_of : ℤ → ClientResult (List DlqExecutionResponse) → Listing
  unfolding row_of
  listing_of offset (received []) =
      if ltb_ℤ (pos 0) offset
      then line "No more executions found in DLQ."
      else line "No executions found in DLQ."
  listing_of offset (received (e ∷ es)) = table (map row_of (e ∷ es))
  listing_of offset error = line ("Error fetching DLQ: " ++ error_text wire client format error)

  unfoldable pub dlq_list : ℤ → ℤ → Listing
  unfolding listing_of
  dlq_list limit offset = listing_of offset (list_dlq_executions wire client limit offset)
