-- ===== src/UnitTests/Common.antt =====
-- gtest/src/Common_gtest.cpp: the tests of the helpers of lib_srs/inc/Common.hpp.
use Prim.Native.String.{◌++◌}
use service_recovery_schedul.Base.{
  String, Bool, true, false, ◌&&◌, Option, none, some, str_eq, ◌≡◌, refl,
}
use service_recovery_schedul.States.{
  RecoveryState, restart, stop, disable, crashed, unknown, to_string,
}
use service_recovery_schedul.Catalogue.{app_a, app_b, app_t, to_u32, service_names, find_name}

-- operator<< of a state, on what the stream has printed
unfoldable pub insert_state : String → RecoveryState → String
insert_state printed state = printed ++ to_string state

unfoldable pub to_string_covers_all : Bool
to_string_covers_all =
    str_eq (to_string restart) "RESTART"
    && str_eq (to_string stop) "STOP"
    && str_eq (to_string disable) "DISABLE"
    && str_eq (to_string crashed) "CRASHED"
    && str_eq (to_string unknown) "UNKNOWN"

unfoldable pub stream_insertion_delegates : Bool
unfolding insert_state
stream_insertion_delegates =
    str_eq (insert_state (insert_state "" restart ++ ",") crashed) "RESTART,CRASHED"

-- EXPECT_EQ of a name in the map; `at` throws where there is none
abbrev is_name : Option String → String → Bool
is_name none name = false
is_name (some n) name = str_eq n name

unfoldable pub contains_expected_apps : Bool
contains_expected_apps =
    is_name (find_name app_a service_names) "AppA"
    && is_name (find_name app_b service_names) "AppB"
    && is_name (find_name app_t service_names) "AppT"

common_tests-pass :
    (to_string_covers_all ≡ true)
    × (stream_insertion_delegates ≡ true)
    × (contains_expected_apps ≡ true)
unfolding to_string_covers_all stream_insertion_delegates contains_expected_apps to_string find_name
    to_u32
common_tests-pass = (refl, refl, refl)
