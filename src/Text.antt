-- ===== src/Text.antt =====
-- The functions of Go's `strings` and `strconv` that the bridge calls, over texts as lists of code
-- points (`strings.TrimSpace`, `Split`, `IndexByte`, `HasPrefix`, `Compare`, `strconv.Atoi`, `%d`).
pub mod Chars
pub mod Cut
pub mod Trim
pub mod Decimal
pub mod Order
pub mod Precedes
pub mod Quote
