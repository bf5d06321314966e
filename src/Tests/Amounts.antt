-- ===== src/Tests/Amounts.antt =====
-- money/Money.ts on concrete amounts.
use cryptotradingbot.Common.{◌≡◌, arith, ◌≤◌, ◌<◌, true, ◌+◌}
use cryptotradingbot.Common.Int.{pos, negsuc, nat_abs}
use cryptotradingbot.Common.Result.{ok}
use cryptotradingbot.Money.{Money, floor_to_increment, is_multiple_of}
use cryptotradingbot.Money.Rounding.Grid.{SameSide, floor_on_grid}
use cryptotradingbot.Money.Text.{from_string, to_string}
use cryptotradingbot.Money.Text.RoundTrip.{from_string-to_string}

floor_on_grid_example :
    (r : Money) × (floor_to_increment (negsuc 6) (pos 5) ≡ ok r)
    × (is_multiple_of r (pos 5) ≡ ok true)
    × SameSide (negsuc 6) r
    × (nat_abs r ≤ nat_abs (negsuc 6))
    × (nat_abs (negsuc 6) < nat_abs r + 5)
floor_on_grid_example = floor_on_grid (negsuc 6) 5 (omega arith)

from_string-to_string_example : from_string (to_string (negsuc 41)) ≡ ok (negsuc 41)
from_string-to_string_example = from_string-to_string (negsuc 41)
