-- ===== src/Base/Text.antt =====
-- Texts of the string extension: the two operations that paths and files need.
use Prim.Native.String.{String, ◌++◌, len}
use mathlib.Core.Bool.{Bool}
use flexran_rtc.Base.Tests.{◌==◌}

abbrev pub joined : String → String → String
joined s t = s ++ t

abbrev pub is_blank : String → Bool
is_blank s = len s == 0
