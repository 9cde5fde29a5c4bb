-- ===== src/Journal/Forgery.antt =====
-- The lines that a log takes: a message with line ends in a client's string takes more than one.
use Prim.Native.String.{◌++◌}
use text.Mathlib.TextLemmas.{append_assoc, append-nil}
use service_recovery_schedul.Journal.Verbatim.{preamble, postamble, plain-around, print_one-around}
use service_recovery_schedul.Base.{
  ℕ, suc, ◌+◌, ◌*◌, ◌≡◌, refl, ap, ◌∙◌, inl, inr, String, Bool, false, none, some, List, [], ◌∷◌,
  ok, arith, leb, if◌then◌else◌, Bool-cases, Option-cases,
}
use service_recovery_schedul.Base.Int.{ℤ, pos}
use service_recovery_schedul.Base.Map.{Iteration, lookup}
use service_recovery_schedul.Service.{ServiceRecoveryInfo}
use service_recovery_schedul.Scheduler.{on_register_service}
use service_recovery_schedul.Scheduler.Spec.{Services, realise?, is_listed}
use service_recovery_schedul.Wire.{RegisterResult, ClientId, translate}
use service_recovery_schedul.Stub.{Platform, PeerInfo}
use service_recovery_schedul.Stub.Methods.{peer_pid, register_service_lem}
use service_recovery_schedul.Daemon.{System, registers, registered, handle}
use service_recovery_schedul.Daemon.Invariant.{IsDaemon}
use service_recovery_schedul.Logger.{Logger, Moment, default_logger, severity, log}
use service_recovery_schedul.Logger.Lines.{
  newlines, newlines-append, newlines-decimal_ℤ, newlines-write,
}
use service_recovery_schedul.Logger.Text.{decimal_ℤ}
use service_recovery_schedul.Logger.{debug, error}
use service_recovery_schedul.Journal.{
  message, Message, register_log, watch_log, call_log, print_one, print_all,
}

-- the context id and the function of each message hold no line end
abbrev pub Plain : List Message → Type 0
Plain [] = Unit
Plain (x ∷ rest) = (newlines x.ctid ≡ 0) × (newlines x.func ≡ 0) × Plain rest

-- one line for a message that the threshold lets pass, and one for each line end in it
abbrev pub lines : Logger → List Message → ℕ
lines logger [] = 0
lines logger (x ∷ rest) =
    (if leb (severity logger.threshold) (severity x.level) then suc (newlines x.text) else 0)
    + lines logger rest

newlines-print_one :
    (logger : Logger) (now : Moment) (x : Message)
    → newlines x.ctid ≡ 0
    → newlines x.func ≡ 0
    → newlines (print_one logger now x)
      ≡ (if leb (severity logger.threshold) (severity x.level) then suc (newlines x.text) else 0)
unfolding print_one log
newlines-print_one logger now x c f =
    elim (Bool-cases (leb (severity logger.threshold) (severity x.level))) [
      | inl high ↦
          rw (high, print_one)
            (newlines-write logger now x.level (some "SRSC") (some x.ctid) (some x.func)
              (pos x.line) refl c f x.text)
      | inr low ↦ rw (low, print_one) refl
    ]

newlines-print_all :
    (logger : Logger) (times : ℕ → Moment) (k : ℕ) (messages : List Message)
    → Plain messages
    → newlines (print_all logger times k messages) ≡ lines logger messages
unfolding print_all
newlines-print_all logger times k [] h = refl
newlines-print_all logger times k (x ∷ rest) (c, f, h) = omega (
  arith,
  newlines-append (print_one logger (times k) x) (print_all logger times (suc k) rest),
  newlines-print_one logger (times k) x c f,
  newlines-print_all logger times (suc k) rest h,
)

-- a name that the catalogue does not list has no entry
unlisted-lookup :
    {Connection Token : Type 0} (order : Iteration ServiceRecoveryInfo)
    → (sys : System Connection Token) (s : Services) → IsDaemon order sys s
    → (name : String) → is_listed name ≡ false
    → lookup name sys.1 ≡ none
unlisted-lookup order sys s v name h = elim (Option-cases (s name)) [
  | inl e ↦ v.refines.agrees name ∙ ap (realise? name) e
  | inr (x, e) ↦ let l = v.listed name x e in absurd (cc)
]

-- the log of a refused registration
abbrev refused_log : String → ℤ → List Message
refused_log name pid =
    message debug "CORE" "onRegisterService" 57
      ("registerService req name=" ++ name ++ " pid=" ++ decimal_ℤ pid)
    ∷ message error "CORE" "onRegisterService" 96 ("invalid service name: " ++ name)
    ∷ []

refused_log-lines :
    (is_tty : Bool) (name : String) (pid : ℤ)
    → lines (default_logger is_tty) (refused_log name pid) ≡ 2 * suc (newlines name)
unfolding severity
refused_log-lines is_tty name pid = omega (
  arith,
  newlines-append "registerService req name=" (name ++ " pid=" ++ decimal_ℤ pid),
  newlines-append name (" pid=" ++ decimal_ℤ pid),
  newlines-append " pid=" (decimal_ℤ pid),
  newlines-decimal_ℤ pid,
  newlines-append "invalid service name: " name,
)

-- The text holds the name twice as it is, with nothing else that ends a line but the ends of two
-- records, after each occurrence.
abbrev pub ShowsTwice : String → String → Type 0
ShowsTwice name text =
    (first between last : String) × (text ≡ first ++ (name ++ (between ++ (name ++ last))))
    × (newlines first ≡ 0)
    × (newlines between ≡ 1)
    × (newlines last ≡ 1)

refused_log-ShowsTwice :
    (is_tty : Bool) (times : ℕ → Moment) (k : ℕ) (name : String) (pid : ℤ)
    → ShowsTwice name (print_all (default_logger is_tty) times k (refused_log name pid))
unfolding print_all
refused_log-ShowsTwice is_tty times k name pid =
    let logger = default_logger is_tty in
    let end = postamble logger in
    let req : String = "registerService req name=" in
    let inv : String = "invalid service name: " in
    let tail : String = " pid=" ++ decimal_ℤ pid in
    let p = preamble logger (times k) debug "CORE" "onRegisterService" 57 in
    let q = preamble logger (times (suc k)) error "CORE" "onRegisterService" 96 in
    let (p0, e1) = plain-around is_tty (times k) debug "CORE" "onRegisterService" 57 refl refl in
    let (q0, _) =
      plain-around is_tty (times (suc k)) error "CORE" "onRegisterService" 96 refl refl in
    (
      p ++ req,
      tail ++ (end ++ (q ++ inv)),
      end,
      simp (
        print_one-around is_tty (times k) debug "CORE" "onRegisterService" 57,
        print_one-around is_tty (times (suc k)) error "CORE" "onRegisterService" 96,
        append_assoc,
        append-nil,
      ),
      omega (arith, newlines-append p req, p0),
      omega (
        arith,
        newlines-append tail (end ++ (q ++ inv)),
        newlines-append " pid=" (decimal_ℤ pid),
        newlines-decimal_ℤ pid,
        newlines-append end (q ++ inv),
        newlines-append q inv,
        e1,
        q0,
      ),
      e1,
    )

module _ {Connection Token : Type 0} (order : Iteration ServiceRecoveryInfo)
    (peer_order : Iteration PeerInfo) (platform : Platform Connection Token)
    (sys : System Connection Token) (s : Services) (v : IsDaemon order sys s) where
  refused_answer :
      (client : ClientId) (name : String) (actions : List ℕ) (interval : ℤ)
      → is_listed name ≡ false
      → handle peer_order platform (registers client name actions interval) sys
        ≡ ok (registered RegisterResult.invalid_name, sys)
  unfolding handle on_register_service is_listed
  refused_answer client name actions interval h =
      let absent = unlisted-lookup order sys s v name h in
      let e : on_register_service name (translate [] actions) interval
            (peer_pid sys.0 sys.1 platform client) sys.1
          ≡ (false, sys.1) =
        rw (absent, on_register_service) (rw h refl) in
      let replied =
        register_service_lem sys.0 sys.1 on_register_service platform client name actions interval
          false sys.1 v.wired.registers e in
      ap (λ r. ok (registered r.0, r.1)) replied

  pub refused_call_log :
      (client : ClientId) (name : String) (actions : List ℕ) (interval : ℤ)
      → is_listed name ≡ false
      → (pid : ℤ) × (call_log order peer_order platform (registers client name actions interval) sys
          ≡ refused_log name pid)
  unfolding call_log register_log watch_log on_register_service is_listed
  refused_call_log client name actions interval h =
      let absent = unlisted-lookup order sys s v name h in
      (
        peer_pid sys.0 sys.1 platform client,
        rw (absent, register_log, on_register_service) (rw h refl),
      )

  -- In a state in which the process's invariant holds, a registerService call with a name that the
  -- catalogue does not list is answered INVALID_NAME and changes nothing. What the default logger
  -- prints for it holds the name twice, character by character as the client sent it, with one line
  -- end between the two and one after the second, and no other outside of the name; so it takes two
  -- lines and two more for each line end in the name.
  pub refused-lines :
      (client : ClientId) (name : String) (actions : List ℕ) (interval : ℤ) (is_tty : Bool)
      → (times : ℕ → Moment) (k : ℕ) → is_listed name ≡ false
      → (handle peer_order platform (registers client name actions interval) sys
          ≡ ok (registered RegisterResult.invalid_name, sys))
        × (newlines (
              print_all
                (default_logger is_tty)
                times
                k
                (call_log order peer_order platform (registers client name actions interval) sys))
            ≡ 2 * suc (newlines name))
        × ShowsTwice name (
            print_all
              (default_logger is_tty)
              times
              k
              (call_log order peer_order platform (registers client name actions interval) sys))
  refused-lines client name actions interval is_tty times k h =
      let (pid, e) = refused_call_log client name actions interval h in
      (
        refused_answer client name actions interval h,
        rw e (
            newlines-print_all (default_logger is_tty) times k (refused_log name pid)
              (refl, refl, (refl, refl, tt))
            ∙ refused_log-lines is_tty name pid),
        rw e (refused_log-ShowsTwice is_tty times k name pid),
      )
