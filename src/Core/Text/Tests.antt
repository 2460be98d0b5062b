-- ===== src/Core/Text/Tests.antt =====
-- Strings at concrete inputs.
use epyx.Base.{◌≡◌, refl, ◌++◌, none, some, Bytes, codes}
use epyx.Base.Int.{negsuc}
use epyx.Core.Text.Number.{to_int-from_int}
use epyx.Core.Text.Trim.{trim_lem, IsSpaces, IsTight, IsTightEnd}
use epyx.Core.Text.{trim, to_int, from_int}

to_int_test : to_int (codes " -42x") ≡ some (negsuc 41)
unfolding to_int
to_int_test = refl

to_int_fails : to_int (codes "- 1") ≡ none
unfolding to_int
to_int_fails = refl

from_int_test : from_int (negsuc 1023) ≡ codes "-1024"
unfolding from_int
from_int_test = refl

trim_test : trim (codes " a b\r ") ≡ codes "a b"
unfolding trim
trim_test = refl

to_int-from_int_test : to_int (from_int (negsuc 1023)) ≡ some (negsuc 1023)
to_int-from_int_test = to_int-from_int (negsuc 1023) refl

trim_lem_test :
    (pre : Bytes) × (post : Bytes) × (codes " a b\r " ≡ pre ++ trim (codes " a b\r ") ++ post)
    × IsSpaces pre
    × IsSpaces post
    × IsTight (trim (codes " a b\r "))
    × IsTightEnd (trim (codes " a b\r "))
trim_lem_test = trim_lem (codes " a b\r ")
