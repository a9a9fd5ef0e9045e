-- ===== src/Examples/Errors.antt =====
-- The errors of core/src/error.rs at concrete inputs.
use occams_rpc.Base.{◌≡◌, ◌↔◌, true, some}
use occams_rpc.Error.{timeout, as_bytes, from_str, num, rpc}
use occams_rpc.Error.Codes.{from_str_iff}
use occams_rpc.Error.Equality.{encoded_eq, encoded_eq_iff, said}

from_str_iff_example :
    (from_str (as_bytes timeout) ≡ some timeout) ↔ (as_bytes timeout ≡ as_bytes timeout)
from_str_iff_example = from_str_iff (as_bytes timeout) timeout

encoded_eq_iff_example :
    (encoded_eq (num 3) (rpc timeout) ≡ true) ↔ (said (num 3) ≡ said (rpc timeout))
encoded_eq_iff_example = encoded_eq_iff (num 3) (rpc timeout) tt tt
