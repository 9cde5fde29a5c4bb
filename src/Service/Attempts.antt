-- ===== src/Service/Attempts.antt =====
-- What holds of a record that the program has made, and what its snapshot promises.
use service_recovery_schedul.Base.{
  ℕ, suc, ◌%◌, ◌^◌, ◌<◌, String, ◌≡◌, refl, ap, ◌∙◌, true, some, List, [], ◌∷◌, ◌++◌, arith, ok,
  length, get_elem?,
}
use mathlib.Core.List.{append-nil, append_assoc}
use service_recovery_schedul.Base.Int.{ℤ, minus_one, inc32, int32}
use service_recovery_schedul.States.{RecoveryState, unknown}
use service_recovery_schedul.Service.{
  ServiceRecoveryInfo, ServiceSnapshot, push_all, requested_or_default, new_info, fail, peek_action,
  snapshot,
}
use service_recovery_schedul.Service.Cursor.{
  period, Cycles, cursor_after, peek_cursor-cursor_after, peek_cursor-big,
}
use service_recovery_schedul.Service.Cycle.{size, failed, action_after, fail_step}

-- `k` failures since the registration: the cursor and the crash count both say so, as far as their
-- widths let them.
pub record Attempts (k : ℕ) (info : ServiceRecoveryInfo) : Type 0 where
  pub cycles : Cycles (size info)
  pub cursor : info.recovery_action_count ≡ cursor_after (size info) k
  pub crashes : info.crash_count ≡ k % 2 ^ 32

pub push_all-append :
    (policy actions : List RecoveryState) → push_all policy actions ≡ policy ++ actions
unfolding push_all
push_all-append policy [] = simp append-nil
push_all-append policy (a ∷ rest) =
    push_all-append (policy ++ a ∷ []) rest ∙ append_assoc policy (a ∷ []) rest

-- A registration stores the whole list that the client sent, however long, or the default policy
-- where that list is empty; it starts with no attempt, no crash and a service that is online.
pub new_info_lem :
    (name : String) (actions : List RecoveryState) (interval : ℤ)
    → new_info name actions interval ≡ record {
      service_name = name;
      pid = minus_one;
      recovery_actions = requested_or_default actions;
      recovery_interval = interval;
      recovery_action_count = minus_one;
      crash_count = 0;
      is_online = true;
      current_recovery_state = unknown;
      last_action = unknown;
    }
unfolding new_info
new_info_lem name actions interval = rw push_all-append

pub new_info-Attempts :
    (name : String) (actions : List RecoveryState) (interval : ℤ)
    → Cycles (length (requested_or_default actions))
    → Attempts 0 (new_info name actions interval)
new_info-Attempts name actions interval c =
    rw new_info_lem (record { cycles = c; cursor = refl; crashes = refl })

pub fail-Attempts :
    (k : ℕ) (info : ServiceRecoveryInfo)
    → Attempts k info
    → (a : RecoveryState) × (get_elem? info.recovery_actions (k % period (size info)) ≡ some a)
      × (fail info ≡ ok (failed info (k % period (size info)) a))
      × Attempts (suc k) (failed info (k % period (size info)) a)
unfolding inc32
fail-Attempts k info v =
    let (a, e) = action_after info k v.cycles in
    (
      a,
      e,
      fail_step info k a v.cycles v.cursor e,
      record { cycles = v.cycles; cursor = refl; crashes = ground arith },
    )

pub peek_after :
    (info : ServiceRecoveryInfo) (k : ℕ) (a : RecoveryState) (policy : List RecoveryState)
    → info.recovery_actions ≡ policy
    → Cycles (length policy)
    → period (length policy) < 128
    → get_elem? policy (k % period (length policy)) ≡ some a
    → peek_action policy (cursor_after (length policy) k) ≡ ok a
unfolding peek_action
peek_after info k a [] p c h e = absurd (omega arith)
peek_after info k a (b ∷ rest) p c h e =
    rw (peek_cursor-cursor_after (length (b ∷ rest)) k c h, e) refl

-- the snapshot whose peek found `next`
abbrev pub snapshot_of : ServiceRecoveryInfo → RecoveryState → ServiceSnapshot
snapshot_of info next = record {
  found = true;
  is_online = info.is_online;
  last_action = info.last_action;
  current_action = info.current_recovery_state;
  next_action = next;
  attempt_count = int32 info.crash_count;
}

-- The action that a snapshot shows as the next one is the action that the next failure drives, and
-- neither has undefined behaviour, whatever number of failures the service had, where the policy's
-- size is from 1 to 127 as int8_t arithmetic sees it.
pub next_action-fail :
    (k : ℕ) (info : ServiceRecoveryInfo)
    → Attempts k info
    → period (size info) < 128
    → (s : ServiceSnapshot) × (next : ServiceRecoveryInfo) × (snapshot info ≡ ok s)
      × (fail info ≡ ok next)
      × (s.next_action ≡ next.current_recovery_state)
unfolding snapshot
next_action-fail k info v h =
    let (a, e, run, _) = fail-Attempts k info v in
    (
      snapshot_of info a,
      failed info (k % period (size info)) a,
      rw (v.cursor, peek_after info k a info.recovery_actions refl v.cycles h e) refl,
      run,
      refl,
    )

peek_first :
    (a : RecoveryState) (rest : List RecoveryState) (k : ℕ)
    → period (length (a ∷ rest)) ≡ 128
    → peek_action (a ∷ rest) (cursor_after (length (a ∷ rest)) (suc k)) ≡ ok a
unfolding peek_action
peek_first a rest k h =
    rw (peek_cursor-big (length (a ∷ rest)) (k % period (length (a ∷ rest))) (omega arith)) refl

-- Take a record with a policy of 128 actions whose cursor and crash count are those of k + 1 failures.
-- Its snapshot is defined and shows the first action of the policy as the next one, whatever k is,
-- while the failure that comes next is defined and drives action (k + 1) mod 128; its cursor and
-- crash count are then those of k + 2 failures, so that this goes on.
pub next_action-stale :
    (k : ℕ) (info : ServiceRecoveryInfo) (a : RecoveryState) (rest : List RecoveryState)
    → Attempts (suc k) info
    → info.recovery_actions ≡ a ∷ rest
    → size info ≡ 128
    → (s : ServiceSnapshot) × (next : ServiceRecoveryInfo) × (snapshot info ≡ ok s)
      × (s.next_action ≡ a)
      × (fail info ≡ ok next)
      × (get_elem? (a ∷ rest) (suc k % 128) ≡ some next.current_recovery_state)
      × Attempts (suc (suc k)) next
unfolding snapshot
next_action-stale k info a rest v p h =
    let (b, e, run, more) = fail-Attempts (suc k) info v in
    let q : period (size info) ≡ 128 = omega arith in
    let e' : get_elem? (a ∷ rest) (suc k % 128) ≡ some b = rw (q, p) at e in
    (
      snapshot_of info a,
      failed info (suc k % period (size info)) b,
      rw (v.cursor, p)
          (let q : period (length (a ∷ rest)) ≡ 128 = omega (arith, ap length p) in
            rw (peek_first a rest k q) refl),
      refl,
      run,
      e',
      more,
    )
