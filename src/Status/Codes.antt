-- ===== src/Status/Codes.antt =====
-- A status and its code stand for one another.
use cofferwire.Base.{ℕ, ◌≡◌, ◌<◌, refl, some, arith, nat_same}
use cofferwire.Wire.{Command, command_code, command_from}
use cofferwire.Status.{Status, ok_status, status_code, status_from}

pub status_from-status_code : (s : Status) → status_from (status_code s) ≡ some s
unfolding status_from
status_from-status_code ok_status = refl
status_from-status_code _ = refl

pub status_code-small : (s : Status) → status_code s < 17
status_code-small ok_status = omega arith
status_code-small _ = omega arith

pub status_code-status_from : (n : ℕ) (s : Status) → status_from n ≡ some s → status_code s ≡ n
unfolding status_from
status_code-status_from n s h = ground arith

pub command_code-command_from : (n : ℕ) (c : Command) → command_from n ≡ some c → command_code c ≡ n
command_code-command_from n c h = ground arith
