-- ===== src/Catalogue.antt =====
-- ServiceId and g_MapServiceNames of lib_srs/inc/Common.hpp.
pub mod Names
use service_recovery_schedul.Base.{
  ℕ, ◌+◌, ◌-◌, ◌^◌, String, Bool, true, Option, none, some, List, [], ◌∷◌, ◌==◌, str_eq,
  if◌then◌else◌,
}

pub data ServiceId : Type 0 where
  app_a app_b app_c app_d app_e app_f app_g app_h app_i app_j : ServiceId
  app_k app_l app_m app_n app_o app_p app_q app_r app_s app_t : ServiceId
  app_unknown : ServiceId

-- the enumerator's uint32_t value
unfoldable pub to_u32 : ServiceId → ℕ
to_u32 app_a = 2100
to_u32 app_b = 2101
to_u32 app_c = 2102
to_u32 app_d = 2103
to_u32 app_e = 2104
to_u32 app_f = 2105
to_u32 app_g = 2106
to_u32 app_h = 2107
to_u32 app_i = 2108
to_u32 app_j = 2109
to_u32 app_k = 2110
to_u32 app_l = 2111
to_u32 app_m = 2112
to_u32 app_n = 2113
to_u32 app_o = 2114
to_u32 app_p = 2115
to_u32 app_q = 2116
to_u32 app_r = 2117
to_u32 app_s = 2118
to_u32 app_t = 2119
to_u32 app_unknown = 2 ^ 32 - 1

-- g_MapServiceNames, a std::map, in the order of its keys
abbrev pub service_names : List (ServiceId × String)
service_names =
    (app_a, "AppA")
    ∷ (app_b, "AppB")
    ∷ (app_c, "AppC")
    ∷ (app_d, "AppD")
    ∷ (app_e, "AppE")
    ∷ (app_f, "AppF")
    ∷ (app_g, "AppG")
    ∷ (app_h, "AppH")
    ∷ (app_i, "AppI")
    ∷ (app_j, "AppJ")
    ∷ (app_k, "AppK")
    ∷ (app_l, "AppL")
    ∷ (app_m, "AppM")
    ∷ (app_n, "AppN")
    ∷ (app_o, "AppO")
    ∷ (app_p, "AppP")
    ∷ (app_q, "AppQ")
    ∷ (app_r, "AppR")
    ∷ (app_s, "AppS")
    ∷ (app_t, "AppT")
    ∷ []

-- g_MapServiceNames[id], and .at(id): the value, if the map has the key
unfoldable pub find_name : ServiceId → List (ServiceId × String) → Option String
find_name id [] = none
find_name id ((j, name) ∷ rest) = if to_u32 j == to_u32 id then some name else find_name id rest

-- The `for_each` of onRegisterService, which goes through all the names and sets a flag.
unfoldable pub scan_names : String → Bool → List (ServiceId × String) → Bool
scan_names name valid [] = valid
scan_names name valid ((id, n) ∷ rest) =
    scan_names name (if str_eq n name then true else valid) rest
