-- ===== src/Base/Map.antt =====
-- std::unordered_map with string keys as an association list, and iteration over it in whatever
-- order its hash table has.
use service_recovery_schedul.Base.{
  String, ◌≡◌, ap, ◌⊎◌, inl, inr, Bool, true, false, Option, none, some, List, [], ◌∷◌, arith,
  str_eq, eq_iff, if◌then◌else◌, Bool-cases,
}

abbrev pub Map {ℓ} : Type ℓ → Type ℓ
Map V = List (String × V)

module _ {ℓ} {V : Type ℓ} where
  -- find(k)
  unfoldable pub lookup : String → Map V → Option V
  lookup k [] = none
  lookup k ((j, v) ∷ m) = if str_eq j k then some v else lookup k m

  -- writes through an iterator at key `k`; a key that is not there is left out
  unfoldable pub update : String → V → Map V → Map V
  update k v [] = []
  update k v ((j, w) ∷ m) = if str_eq j k then (j, v) ∷ m else (j, w) ∷ update k v m

  unfoldable pub erase : String → Map V → Map V
  erase k [] = []
  erase k ((j, v) ∷ m) = if str_eq j k then m else (j, v) ∷ erase k m

  -- emplace: no effect where the key is there
  unfoldable pub emplace : String → V → Map V → Map V
  emplace k v m = elim (lookup k m) [ none ↦ (k, v) ∷ m | some _ ↦ m ]

  -- m[k] = v
  unfoldable pub assign : String → V → Map V → Map V
  assign k v m = elim (lookup k m) [ none ↦ (k, v) ∷ m | some _ ↦ update k v m ]

  -- std::find_if, and a loop with `break` at the first hit
  unfoldable pub find_if : (String → V → Bool) → Map V → Option (String × V)
  find_if p [] = none
  find_if p ((k, v) ∷ m) = if p k v then some (k, v) else find_if p m

  -- no key twice
  abbrev pub Unique : Map V → Type ℓ
  Unique [] = Unit
  Unique ((j, w) ∷ m) = (lookup j m ≡ none) × Unique m

  abbrev pub replaced : V → Option V → Option V
  replaced v none = none
  replaced v (some w) = some v

  abbrev pub or_new : V → Option V → Option V
  or_new v none = some v
  or_new v (some w) = some w

  pub lookup-update :
      (k j : String) (v : V) (m : Map V)
      → lookup j (update k v m) ≡ (if str_eq k j then replaced v (lookup j m) else lookup j m)
  unfolding lookup update
  lookup-update k j v [] = ground arith
  lookup-update k j v ((i, w) ∷ m) =
      ground (arith, eq_iff k j, eq_iff i k, eq_iff i j, lookup-update k j v m)

  pub lookup-erase :
      (k j : String) (m : Map V)
      → Unique m
      → lookup j (erase k m) ≡ (if str_eq k j then none else lookup j m)
  unfolding lookup erase
  lookup-erase k j [] u = ground arith
  lookup-erase k j ((i, w) ∷ m) u =
      ground (arith, eq_iff k j, eq_iff i k, eq_iff i j, lookup-erase k j m u.1)

  pub lookup-emplace :
      (k j : String) (v : V) (m : Map V)
      → lookup j (emplace k v m) ≡ (if str_eq k j then or_new v (lookup j m) else lookup j m)
  unfolding lookup emplace
  lookup-emplace k j v m = ground (arith, eq_iff k j)

  pub lookup-assign :
      (k j : String) (v : V) (m : Map V)
      → lookup j (assign k v m) ≡ (if str_eq k j then some v else lookup j m)
  unfolding lookup assign
  lookup-assign k j v m = ground (arith, eq_iff k j, lookup-update k j v m)

  pub update-Unique : (k : String) (v : V) (m : Map V) → Unique m → Unique (update k v m)
  unfolding update
  update-Unique k v [] u = tt
  update-Unique k v ((i, w) ∷ m) u =
      ground (arith, eq_iff i k, eq_iff k i, lookup-update k i v m, update-Unique k v m u.1)

  pub erase-Unique : (k : String) (m : Map V) → Unique m → Unique (erase k m)
  unfolding erase
  erase-Unique k [] u = tt
  erase-Unique k ((i, w) ∷ m) u = ground (arith, lookup-erase k i m u.1, erase-Unique k m u.1)

  pub emplace-Unique : (k : String) (v : V) (m : Map V) → Unique m → Unique (emplace k v m)
  unfolding emplace
  emplace-Unique k v m u = ground arith

  pub assign-Unique : (k : String) (v : V) (m : Map V) → Unique m → Unique (assign k v m)
  unfolding assign
  assign-Unique k v m u = ground (arith, update-Unique k v m)

-- The map holds the entry.
module _ {V : Type 0} where
  abbrev pub Has : String → V → Map V → Type 0
  Has k v [] = ⊥
  Has k v ((j, w) ∷ m) = ((j ≡ k) × (w ≡ v)) ⊎ Has k v m

  pub Has-of_lookup : (k : String) (v : V) (m : Map V) → lookup k m ≡ some v → Has k v m
  unfolding lookup
  Has-of_lookup k v [] h = cc
  Has-of_lookup k v ((j, w) ∷ m) h = elim (Bool-cases (str_eq j k)) [
    | inl e ↦ inl ((eq_iff j k).0 e, ground arith)
    | inr e ↦ inr (Has-of_lookup k v m (ground arith))
  ]

  -- an entry of a map with unique keys is what its key finds
  pub lookup-Has : (k : String) (v : V) (m : Map V) → Unique m → Has k v m → lookup k m ≡ some v
  unfolding lookup
  lookup-Has k v [] u h = absurd h
  lookup-Has k v ((j, w) ∷ m) u h = ground (arith, eq_iff j k, lookup-Has k v m u.1)

  pub find_if-Has :
      (p : String → V → Bool) (m : Map V) (e : String × V)
      → find_if p m ≡ some e
      → (p e.0 e.1 ≡ true) × Has e.0 e.1 m
  unfolding find_if
  find_if-Has p [] e h = absurd (cc)
  find_if-Has p ((k, v) ∷ m) e h = elim (Bool-cases (p k v)) [
    | inl hit ↦
        let q : (k, v) ≡ e = ground arith in
        (rw (← q) hit, inl (ap (λ (x : String × V). x.0) q, ap (λ (x : String × V). x.1) q))
    | inr miss ↦ let r = find_if-Has p m e (ground arith) in (r.0, inr r.1)
  ]

  pub find_if-none :
      (p : String → V → Bool) (m : Map V) (k : String) (v : V)
      → find_if p m ≡ none
      → Has k v m
      → p k v ≡ false
  unfolding find_if
  find_if-none p [] k v h i = absurd i
  find_if-none p ((j, w) ∷ m) k v h (inl e) =
      ground (arith, ap (λ (x : String). p x w) e.0, ap (p k) e.1)
  find_if-none p ((j, w) ∷ m) k v h (inr i) = find_if-none p m k v (ground arith) i

-- A loop over an unordered_map visits every entry and nothing else, in an order of the library's
-- choice.
pub record Iteration (V : Type 0) : Type 0 where
  pub visit : Map V → Map V
  pub visit_sound : (m : Map V) (k : String) (v : V) → Has k v (visit m) → Has k v m
  pub visit_complete : (m : Map V) (k : String) (v : V) → Has k v m → Has k v (visit m)

-- the order in which the model holds the entries
abbrev pub stored_order : (V : Type 0) → Iteration V
stored_order V = record {
  visit = λ m. m;
  visit_sound = λ m k v h. h;
  visit_complete = λ m k v h. h;
}
