-- ===== src/Filter.antt =====
-- internal/core/deliver/filter.go: the three-valued result of a filter and the Filter interface;
-- below it, the SQL92 filter.
pub mod Logic
pub mod Sql
pub mod Lexer
pub mod Parser
pub mod Build
pub mod Ending
pub mod Turns
pub mod Accepted
pub mod Tags
pub mod Printed
pub mod Laws
pub mod Monotone
mod Tests
use sq.Common.{Bool, true, false}
use sq.Message.{Message}

pub data Result : Type 0 where
  result_true result_false result_unknown : Result

-- A value of the Filter interface: its Match method, and whether it is a *TagFilter.
pub record Filter : Type 0 where
  pub is_tag_filter : Bool
  pub matches : Message → Result

-- The values of FilterSkipKey.Reason.
pub data SkipReason : Type 0 where
  tag_miss sql_false sql_unknown : SkipReason

unfoldable pub skip_reason_of : Filter → Result → SkipReason
skip_reason_of f r = by_kind f.is_tag_filter r
  where
    by_kind : Bool → Result → SkipReason
    by_kind true r = tag_miss
    by_kind false result_unknown = sql_unknown
    by_kind false r = sql_false
