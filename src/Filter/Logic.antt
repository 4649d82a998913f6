-- ===== src/Filter/Logic.antt =====
-- The three-valued connectives of internal/core/deliver/sql92_eval.go.
use sq.Common.{Bool, true, false, ◌&&◌, ◌||◌, if◌then◌else◌}
use sq.Filter.{Result, result_true, result_false, result_unknown}

abbrev pub is_result_true : Result → Bool
is_result_true result_true = true
is_result_true result_false = false
is_result_true result_unknown = false

abbrev pub is_result_false : Result → Bool
is_result_false result_true = false
is_result_false result_false = true
is_result_false result_unknown = false

unfoldable pub and3 : Result → Result → Result
and3 a b =
    if is_result_false a || is_result_false b
    then result_false
    else if is_result_true a && is_result_true b
    then result_true
    else result_unknown

unfoldable pub or3 : Result → Result → Result
or3 a b =
    if is_result_true a || is_result_true b
    then result_true
    else if is_result_false a && is_result_false b
    then result_false
    else result_unknown

unfoldable pub not3 : Result → Result
not3 result_true = result_false
not3 result_false = result_true
not3 result_unknown = result_unknown
