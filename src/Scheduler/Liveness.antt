-- ===== src/Scheduler/Liveness.antt =====
-- What a service that keeps failing gets: other requests between its failures do not keep an action of
-- its policy from being driven.
use native.Mathlib.Nat.{mod-eq_of_lt, add-mod_right}
use service_recovery_schedul.Base.{
  ℕ, zero, suc, ◌+◌, ◌%◌, ◌≤◌, ◌<◌, ◌≡◌, ◌≢◌, refl, sym, ap, ◌∙◌, inl, inr, String, Bool, true,
  some, List, [], ◌∷◌, ◌++◌, arith, ok, str_eq, eq_iff, eq_refl, length, get_elem?, get_elem?-ge,
  if◌then◌else◌, Bool-cases, ◌==◌, leb, ◌⊎◌,
}
use service_recovery_schedul.Base.Map.{Iteration, lookup}
use service_recovery_schedul.States.{RecoveryState, is_unknown}
use service_recovery_schedul.Service.{ServiceRecoveryInfo}
use service_recovery_schedul.Scheduler.{Registry}
use service_recovery_schedul.Scheduler.Requests.{
  Request, registers, unregisters, reports, fails, step, run,
}
use service_recovery_schedul.Scheduler.Spec.{
  Entry, Services, nth_action, spec_step, spec_reply, realise, Fits, All,
}
use service_recovery_schedul.Scheduler.Refinement.{Refines, failed_entry}
use service_recovery_schedul.Scheduler.Implements.{step-Refines}

-- The request does not unregister `name`.
abbrev pub Keeps : String → Request → Type 0
Keeps name (unregisters other) = name ≢ other
Keeps name _ = Unit

abbrev pub failures_in : String → Request → ℕ
failures_in name (fails other) = if str_eq other name then 1 else 0
failures_in name _ = 0

-- how often `name` fails in these requests
unfoldable pub failures_of : String → List Request → ℕ
failures_of name [] = 0
failures_of name (q ∷ rest) = failures_in name q + failures_of name rest

-- In the run of these requests from `m`, one of them is a failure of `name` that drives `action`.
pub record Driven (order : Iteration ServiceRecoveryInfo) (m : Registry) (name : String)
    (action : RecoveryState) (qs : List Request) : Type 0 where
  pub before : List Request
  pub after : List Request
  pub replies : List Bool
  pub prior : Registry
  pub driven : Registry
  pub info : ServiceRecoveryInfo
  pub splits : qs ≡ before ++ fails name ∷ after
  pub reaches : run order before m ≡ ok (replies, prior)
  pub failure : step order (fails name) prior ≡ ok (true, driven)
  pub kept : lookup name driven ≡ some info
  pub drives : info.current_recovery_state ≡ action

-- the entry of `name` after a request that does not unregister it
entry_after :
    (name : String) (q : Request) (s : Services) (e : Entry)
    → Keeps name q
    → s name ≡ some e
    → (e' : Entry) × (spec_step q s name ≡ some e')
      × (e'.policy ≡ e.policy)
      × (e'.failures ≡ e.failures + failures_in name q)
unfolding spec_step
entry_after name (registers other actions interval pid) s e h x =
    elim (Bool-cases (str_eq other name)) [
      | inl t ↦
          let y : s other ≡ some e = ap s ((eq_iff other name).0 t) ∙ x in
          (record e { is_online = true }, rw (t, y) refl, refl, omega arith)
      | inr t ↦ (e, rw t x, refl, omega arith)
    ]
entry_after name (unregisters other) s e h x = elim (Bool-cases (str_eq other name)) [
  | inl t ↦ absurd (h (sym ((eq_iff other name).0 t)))
  | inr t ↦ (e, rw t x, refl, omega arith)
]
entry_after name (reports other current last) s e h x = elim (Bool-cases (str_eq other name)) [
  | inl t ↦
      let y : s other ≡ some e = ap s ((eq_iff other name).0 t) ∙ x in
      (
        record e { current = current; last = if is_unknown last then e.last else last },
        rw (t, y) refl,
        refl,
        omega arith,
      )
  | inr t ↦ (e, rw t x, refl, omega arith)
]
entry_after name (fails other) s e h x = elim (Bool-cases (str_eq other name)) [
  | inl t ↦
      let y : s other ≡ some e = ap s ((eq_iff other name).0 t) ∙ x in
      (failed_entry e, rw (t, y) refl, refl, rw t (omega arith))
  | inr t ↦ (e, rw t x, refl, rw t (omega arith))
]

get_elem?-bound :
    (policy : List RecoveryState) (i : ℕ) (a : RecoveryState)
    → get_elem? policy i ≡ some a
    → i < length policy
get_elem?-bound policy i a h = elim (Bool-cases (leb (length policy) i)) [
  | inl y ↦ let none' = get_elem?-ge policy i (ground arith) in absurd (cc)
  | inr y ↦ ground arith
]

-- Every position of a circle comes within one turn.
in_turn : (n i k : ℕ) → i < n → (j : ℕ) × (k ≤ j) × (j < k + n) × (j % n ≡ i)
in_turn n i zero h = (i, omega arith, omega arith, mod-eq_of_lt h)
in_turn n i (suc k) h =
    let (j, low, high, e) = in_turn n i k h in
    elim (Bool-cases (j == k)) [
      | inl y ↦
          let y' : j ≡ k = ground arith in
          (k + n, omega arith, omega arith, add-mod_right k n ∙ (rw y' at e))
      | inr y ↦ let y' : j ≢ k = ground arith in (j, omega arith, omega arith, e)
    ]

failures_in-cases :
    (name : String) (q : Request)
    → (failures_in name q ≡ 0) ⊎ ((failures_in name q ≡ 1) × (q ≡ fails name))
failures_in-cases name (registers other actions interval pid) = inl refl
failures_in-cases name (unregisters other) = inl refl
failures_in-cases name (reports other current last) = inl refl
failures_in-cases name (fails other) = elim (Bool-cases (str_eq other name)) [
  | inl e ↦ inr (rw e refl, ap fails ((eq_iff other name).0 e))
  | inr e ↦ inl (rw e refl)
]

module _ (order : Iteration ServiceRecoveryInfo) where
  failure_now :
      (name : String) (m : Registry) (s : Services) (e : Entry) (rest : List Request)
      → Refines m s
      → s name ≡ some e
      → Driven order m name (nth_action e.policy e.failures) (fails name ∷ rest)
  unfolding run spec_step spec_reply
  failure_now name m s e rest r x =
      let (m', go, r') = step-Refines order (fails name) m s r tt in
      record {
        before = [];
        after = rest;
        replies = [];
        prior = m;
        driven = m';
        info = realise name (failed_entry e);
        splits = refl;
        reaches = refl;
        failure = go;
        kept = r'.agrees name ∙ rw (eq_refl name, x) refl;
        drives = refl;
      }

  later :
      (name : String) (action : RecoveryState) (q : Request) (rest : List Request) (m m' : Registry)
      (b : Bool)
      → step order q m ≡ ok (b, m')
      → Driven order m' name action rest
      → Driven order m name action (q ∷ rest)
  unfolding run
  later name action q rest m m' b go d = record {
    before = q ∷ d.before;
    after = d.after;
    replies = b ∷ d.replies;
    prior = d.prior;
    driven = d.driven;
    info = d.info;
    splits = ap (λ (l : List Request). q ∷ l) d.splits;
    reaches = rw go (rw d.reaches refl);
    failure = d.failure;
    kept = d.kept;
    drives = d.drives;
  }

  drives_at :
      (name : String) (j : ℕ) (qs : List Request) (m : Registry) (s : Services) (e : Entry)
      → Refines m s
      → s name ≡ some e
      → All Fits qs
      → All (Keeps name) qs
      → e.failures ≤ j
      → j < e.failures + failures_of name qs
      → Driven order m name (nth_action e.policy j) qs
  unfolding failures_of
  drives_at name j [] m s e r x f k low high = absurd (omega arith)
  drives_at name j (q ∷ rest) m s e r x f k low high =
      let (m', go, r') = step-Refines order q m s r f.0 in
      let (e', x', same, more) = entry_after name q s e k.0 x in
      elim (Bool-cases (leb e'.failures j)) [
        | inl y ↦ later name (nth_action e.policy j) q rest m m' (spec_reply q s) go (
            rw same at (
              drives_at name j rest m' (spec_step q s) e' r' x' f.1 k.1 (ground arith)
                (omega arith)))
        | inr y ↦ elim (failures_in-cases name q) [
          | inl z ↦ ground arith
          | inr (z, is) ↦
              let now : j ≡ e.failures = ground arith in
              rw (now, is) (failure_now name m s e rest r x)
        ]
      ]

  -- Take a registry that stands for some abstract services with `name` among them, and any requests
  -- about any services, with policies of at most 127 actions, in which `name` is not unregistered but
  -- fails at least as often as its policy has actions. Whatever else comes between (reports of the
  -- same service and repeated registrations included), each action of the policy is driven: one of
  -- these requests is a failure of `name` after which the record's current state is this action.
  pub failures-Driven :
      (name : String) (i : ℕ) (action : RecoveryState) (qs : List Request) (m : Registry)
      (s : Services) (e : Entry)
      → Refines m s
      → s name ≡ some e
      → All Fits qs
      → All (Keeps name) qs
      → get_elem? e.policy i ≡ some action
      → length e.policy ≤ failures_of name qs
      → Driven order m name action qs
  failures-Driven name i action qs m s e r x f k h n =
      let l : i < length e.policy = get_elem?-bound e.policy i action h in
      let (j, low, high, turn) = in_turn (length e.policy) i e.failures l in
      let q : get_elem? e.policy (j % length e.policy) ≡ some action = rw turn h in
      rw (let a : nth_action e.policy j ≡ action = rw (q, nth_action) refl in a) at
        (drives_at name j qs m s e r x f k low (omega arith))
