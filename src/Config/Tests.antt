-- ===== src/Config/Tests.antt =====
-- The theorem about the configuration at concrete values.
use qoderwork2api.Common.{ℕ, [], Option, none, some}
use qoderwork2api.Common.Int.{ℤ, pos}
use qoderwork2api.Common.Eq.{Text}
use qoderwork2api.Config.{no_path, load}
use qoderwork2api.Config.Validity.{IsLoaded, load-IsLoaded}

abbrev no_number : Text → Option ℤ
no_number s = none

abbrev an_hour : Text → Option ℤ
an_hour s = some (pos 3_600_000_000_000)

abbrev unset : Text → Text
unset name = []

abbrev same_letter : ℕ → ℕ
same_letter c = c

load-IsLoaded_example :
    IsLoaded no_number an_hour unset same_letter (load no_number an_hour unset same_letter no_path)
load-IsLoaded_example = load-IsLoaded no_number an_hour unset same_letter no_path
