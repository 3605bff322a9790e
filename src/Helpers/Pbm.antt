-- ===== src/Helpers/Pbm.antt =====
-- What the output of Percona Backup for MongoDB says.
use mongodb_k8s_operator.Prelude.{
  String, ◌≡◌, refl, Bool, false, Option, none, some, List, [], ◌∷◌, arith, ◌==◌, if◌then◌else◌,
}
use mongodb_k8s_operator.Text.{occurs, begins}
use mongodb_k8s_operator.Text.Lines.{splitlines}
use mongodb_k8s_operator.Core.Error.{Result, ok, err, index_error}
use mongodb_k8s_operator.Core.Call.{Status, active, waiting, maintenance}
use mongodb_k8s_operator.Core.Sets.{contains}

-- `if not error_string`
abbrev pub is_empty : String → Bool
is_empty s = s == ""

-- `process_pbm_error`, whose argument is a text or `None`.
unfoldable pub process_pbm_error : Option String → String
process_pbm_error none = "couldn't configure s3 backup option"
process_pbm_error (some error_string) =
    if is_empty error_string
    then "couldn't configure s3 backup option"
    else if occurs "status code: 403" error_string
    then "s3 credentials are incorrect."
    else if occurs "status code: 404" error_string
    then "s3 configurations are incompatible."
    else if occurs "status code: 301" error_string
    then "s3 configurations are incompatible."
    else "couldn't configure s3 backup option"

-- `lines[i + 2]`, from the lines after line `i`.
abbrev pub two_below : List String → Result String
two_below [] = err index_error
two_below (a ∷ []) = err index_error
two_below (a ∷ b ∷ lines) = ok b

unfoldable pub op_in_lines : List String → Result String
op_in_lines [] = ok ""
op_in_lines (line ∷ lines) =
    let rest = op_in_lines lines in if line == "Currently running:" then two_below lines else rest

-- `current_pbm_op`
unfoldable pub current_pbm_op : String → Result String
unfolding op_in_lines
current_pbm_op pbm_status = op_in_lines (splitlines pbm_status)

abbrev pub status_of_op : String → Status
status_of_op op =
    if occurs "Resync" op
    then waiting "waiting to sync s3 configurations."
    else if occurs "(none)" op
    then active ""
    else if occurs "Snapshot backup" op
    then maintenance "backup started/running"
    else if occurs "Snapshot restore" op
    then maintenance "restore started/running"
    else active ""

-- `process_pbm_status`
unfoldable pub process_pbm_status : String → Result Status
unfolding current_pbm_op
process_pbm_status pbm_status = elim (current_pbm_op pbm_status) [
  | err e ↦ err e
  | ok op ↦ ok (status_of_op op)
]

op_in_lines-no_marker :
    (lines : List String) → contains lines "Currently running:" ≡ false → op_in_lines lines ≡ ok ""
unfolding op_in_lines contains
op_in_lines-no_marker [] h = refl
op_in_lines-no_marker (line ∷ lines) h = ground (arith, op_in_lines-no_marker lines)

-- Without a line "Currently running:" in its output, PBM is reported as idle.
pub process_pbm_status-no_marker :
    (pbm_status : String)
    → contains (splitlines pbm_status) "Currently running:" ≡ false
    → process_pbm_status pbm_status ≡ ok (active "")
unfolding process_pbm_status occurs begins
process_pbm_status-no_marker pbm_status h =
    ground (arith, op_in_lines-no_marker (splitlines pbm_status))
