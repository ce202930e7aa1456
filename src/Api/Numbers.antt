-- ===== src/Api/Numbers.antt =====
-- internal/api/router.go and middleware.go: the decimal printing of integers, and the lines of the
-- metrics page. A buffer of 20 bytes is filled from its end; `none` is the panic of an index below
-- its start.
pub mod Printed
use koala_v.Prelude.{
  ℕ, zero, suc, ◌+◌, ◌/◌, ◌%◌, ◌==◌, ℤ, pos, negsuc, ◌-ℤ◌, ltb_ℤ, wrap64, Text, bytes, List, [],
  ◌∷◌, ◌++◌, Bool, true, false, Option, none, some, if◌then◌else◌, Table,
}

-- The rest of the loop with a number of free bytes in front of what is written: the free bytes that
-- are left, and the text.
unfoldable pub write_digits : ℕ → ℕ → Text → Option (ℕ × Text)
write_digits zero n written = if n == 0 then some (zero, written) else none
write_digits (suc room) n written = elim (n == 0) [
  | true ↦ some (suc room, written)
  | false ↦ write_digits room (n / 10) ((b'0' + n % 10) ∷ written)
]

abbrev written : Option (ℕ × Text) → Option Text
written none = none
written (some (room, t)) = some t

unfoldable pub uint_to_string : ℕ → Option Text
unfolding write_digits
uint_to_string n = if n == 0 then some (bytes "0") else written (write_digits 20 n [])

-- `for n > 0`: a negative number ends the loop at once.
abbrev pub above_zero : ℤ → ℕ
above_zero (pos n) = n
above_zero (negsuc n) = 0

abbrev pub put_sign : Option (ℕ × Text) → Option Text
put_sign none = none
put_sign (some (zero, t)) = none
put_sign (some (suc room, t)) = some (b'-' ∷ t)

unfoldable pub int_to_string : ℤ → Option Text
unfolding write_digits wrap64 ◌-ℤ◌
int_to_string (pos n) = if n == 0 then some (bytes "0") else written (write_digits 20 n [])
int_to_string (negsuc n) = put_sign (write_digits 20 (above_zero (wrap64 (pos 0 -ℤ negsuc n))) [])

unfoldable pub format_metric_line : Text → Text → ℤ → Option Text
unfolding int_to_string
format_metric_line name path value = elim (int_to_string value) [
  | none ↦ none
  | some v ↦ some (name ++ bytes "{path=\"" ++ path ++ bytes "\"} " ++ v ++ bytes "\n")
]
