-- ===== src/Catalogue/Names.antt =====
-- What a lookup and a scan of g_MapServiceNames find.
use service_recovery_schedul.Base.{
  ℕ, suc, ◌≤◌, String, ◌≡◌, ◌↔◌, refl, true, false, some, List, [], ◌∷◌, arith, eq_iff, ◌⊎◌, inl,
  inr,
}
use service_recovery_schedul.Catalogue.{ServiceId, to_u32, service_names, find_name, scan_names}

-- some pair of the list has the name
abbrev Listed : String → List (ServiceId × String) → Type 0
Listed name [] = ⊥
Listed name ((id, n) ∷ rest) = (n ≡ name) ⊎ Listed name rest

scan_names-true :
    (name : String) (rest : List (ServiceId × String)) → scan_names name true rest ≡ true
unfolding scan_names
scan_names-true name [] = refl
scan_names-true name ((id, n) ∷ rest) = ground (arith, scan_names-true name rest)

scan_names-Listed :
    (name : String) (rest : List (ServiceId × String))
    → (scan_names name false rest ≡ true) ↔ Listed name rest
unfolding scan_names
scan_names-Listed name [] = ((λ e. cc), (λ b. absurd b))
scan_names-Listed name ((id, n) ∷ rest) = (
  (λ e. ground (arith, eq_iff n name, scan_names-Listed name rest)),
  (λ l. ground (arith, eq_iff n name, scan_names-true name rest, scan_names-Listed name rest)),
)

-- the keys rise, from the bound on: what a std::map sees to
abbrev Ascending : ℕ → List (ServiceId × String) → Type 0
Ascending n [] = Unit
Ascending n ((id, name) ∷ rest) = (n ≤ to_u32 id) × Ascending (suc (to_u32 id)) rest

Listed-find_name :
    (n : ℕ) (name : String) (rest : List (ServiceId × String))
    → Ascending n rest
    → Listed name rest
    → (id : ServiceId) × (n ≤ to_u32 id) × (find_name id rest ≡ some name)
unfolding find_name
Listed-find_name n name [] a l = absurd l
Listed-find_name n name ((id, m) ∷ rest) a (inl e) = (id, a.0, ground (arith, e))
Listed-find_name n name ((id, m) ∷ rest) a (inr l) =
    let (j, b, e) = Listed-find_name (suc (to_u32 id)) name rest a.1 l in
    (j, omega (arith, a.0), ground arith)

find_name-Listed :
    (id : ServiceId) (name : String) (rest : List (ServiceId × String))
    → find_name id rest ≡ some name
    → Listed name rest
unfolding find_name
find_name-Listed id name [] e = cc
find_name-Listed id name ((j, m) ∷ rest) e = ground (arith, find_name-Listed id name rest)

service_names-Ascending : Ascending 0 service_names
unfolding to_u32
service_names-Ascending = omega arith

-- The scan that onRegisterService makes of g_MapServiceNames accepts a name exactly when some
-- service id is mapped to it.
pub scan_names_iff :
    (name : String)
    → (scan_names name false service_names ≡ true)
      ↔ ((id : ServiceId) × (find_name id service_names ≡ some name))
scan_names_iff name = (
  (λ e.
      let (id, b, f) =
        Listed-find_name 0 name service_names service_names-Ascending
          ((scan_names-Listed name service_names).0 e) in
      (id, f)),
  (λ p. (scan_names-Listed name service_names).1 (find_name-Listed p.0 name service_names p.1)),
)
