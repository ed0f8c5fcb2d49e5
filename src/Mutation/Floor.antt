-- ===== src/Mutation/Floor.antt =====
-- `compare_floor` of scripts/quality/pitest_policy/__init__.py.
use gas_station.Base.{ℕ, ◌*◌, Bool, not, ◌&&◌, leb, eq_nat}
use gas_station.Coverage.Outcome.{Result, ok, err, ◌>>=◌, ◌>>◌, policy_error, require}
use gas_station.Coverage.Floors.{Value, number}

-- A number from 0 up; a Boolean, a negative number or anything else is refused.
unfoldable pub require_number : Value → Result ℕ
require_number (number n) = ok n
require_number _ = err policy_error

unfoldable pub compare_floor : Value → Value → Value → Result Bool
unfolding require_number
compare_floor killed total floor_percent = require_number killed >>= λ k.
    require_number total >>= λ t. require_number floor_percent >>= λ f.
    require (not (eq_nat t 0) && leb k t && leb f 100) >> ok (leb (f * t) (100 * k))
