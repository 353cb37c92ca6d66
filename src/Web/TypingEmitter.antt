-- ===== src/Web/TypingEmitter.antt =====
-- apps/web/src/hooks/useTypingEmitter.ts: the hook that tells a channel when its user types.
use munichat.Prelude.{
  ℕ, suc, ◌≡◌, refl, Bool, true, false, Option, none, some, List, [], ◌∷◌, ◌++◌, ◌||◌, ◌==◌,
  if◌then◌else◌, Bool-cases, inl, inr, arith,
}

-- What is emitted to the channel: `TYPING_START` and `TYPING_STOP`.
pub data Signal : Type 0 where
  typing_start : Signal
  typing_stop : Signal

-- The two references of the hook, the timers of the browser that are still to fire, the identifier of
-- the next one, and what was emitted, the oldest first.
pub record Emitter : Type 0 where
  pub is_typing : Bool
  pub timeout : Option ℕ
  pub timers : List ℕ
  pub next_timer : ℕ
  pub emitted : List Signal

abbrev pub unused : Emitter
unused = record { is_typing = false; timeout = none; timers = []; next_timer = 1; emitted = [] }

-- `clearTimeout`
unfoldable pub clear_timeout : ℕ → List ℕ → List ℕ
clear_timeout t [] = []
clear_timeout t (u ∷ us) = let rest = clear_timeout t us in if t == u then rest else u ∷ rest

abbrev cleared : Option ℕ → List ℕ → List ℕ
cleared none timers = timers
cleared (some t) timers = clear_timeout t timers

abbrev stopped_if : Bool → List Signal → List Signal
stopped_if true emitted = emitted ++ typing_stop ∷ []
stopped_if false emitted = emitted

abbrev started_if : Bool → List Signal → List Signal
started_if true emitted = emitted
started_if false emitted = emitted ++ typing_start ∷ []

-- `stopTyping`
unfoldable pub stop_typing : Emitter → Emitter
unfolding clear_timeout
stop_typing s = record s {
  is_typing = false;
  timeout = none;
  timers = cleared s.timeout s.timers;
  emitted = stopped_if s.is_typing s.emitted;
}

-- `notifyTyping`
unfoldable pub notify_typing : Emitter → Emitter
unfolding clear_timeout
notify_typing s = record {
  is_typing = true;
  timeout = some s.next_timer;
  timers = cleared s.timeout s.timers ++ s.next_timer ∷ [];
  next_timer = suc s.next_timer;
  emitted = started_if s.is_typing s.emitted;
}

abbrev is_pending : ℕ → List ℕ → Bool
is_pending t [] = false
is_pending t (u ∷ us) = t == u || is_pending t us

-- A timer fires, once, and its callback is `stopTyping`.
unfoldable pub fire : ℕ → Emitter → Emitter
unfolding stop_typing clear_timeout
fire t s = elim (is_pending t s.timers) [
  | true ↦ stop_typing (record s { timers = clear_timeout t s.timers })
  | false ↦ s
]

-- What happens to the hook: a key, a message that is sent or the end of the component, or a timer.
pub data Happening : Type 0 where
  notified : Happening
  stopped : Happening
  elapsed : ℕ → Happening

unfoldable pub happen : Happening → Emitter → Emitter
unfolding notify_typing stop_typing fire
happen notified s = notify_typing s
happen stopped s = stop_typing s
happen (elapsed t) s = fire t s

unfoldable pub run : List Happening → Emitter → Emitter
unfolding happen
run [] s = s
run (h ∷ hs) s = run hs (happen h s)

-- The timers that are pending fire.
abbrev pub fire_each : List ℕ → Emitter → Emitter
fire_each [] s = s
fire_each (t ∷ ts) s = fire_each ts (fire t s)

unfoldable pub let_elapse : Emitter → Emitter
let_elapse s = fire_each s.timers s

-- Every start is followed by its stop.
pub data IsPaired : List Signal → Type 0 where
  silent : IsPaired []
  paired :
      {out : List Signal} → IsPaired out → IsPaired ((out ++ typing_start ∷ []) ++ typing_stop ∷ [])

-- The user is silent and no timer is pending, or types and just the timer of the hook is.
data IsSound : Emitter → Type 0 where
  quiet :
      (n : ℕ) {out : List Signal}
      → IsPaired out
      → IsSound
          (record { is_typing = false; timeout = none; timers = []; next_timer = n; emitted = out })
  typing :
      (t n : ℕ) {out : List Signal}
      → IsPaired out
      → IsSound (record {
        is_typing = true;
        timeout = some t;
        timers = t ∷ [];
        next_timer = n;
        emitted = out ++ typing_start ∷ [];
      })

eq_self : (t : ℕ) → (t == t) ≡ true
eq_self t = ground arith

happen-IsSound : (h : Happening) {s : Emitter} → IsSound s → IsSound (happen h s)
unfolding happen
happen-IsSound notified (quiet n p) = typing n (suc n) p
happen-IsSound notified (typing t n p) = rw (eq_self t) (typing n (suc n) p)
happen-IsSound stopped (quiet n p) = quiet n p
happen-IsSound stopped (typing t n p) = rw (eq_self t) (quiet n (paired p))
happen-IsSound (elapsed u) (quiet n p) = quiet n p
happen-IsSound (elapsed u) (typing t n p) = elim (Bool-cases (u == t)) [
  | inl e ↦ rw (e, happen, fire) (rw (e, stop_typing, clear_timeout) (quiet n (paired p)))
  | inr e ↦ rw (e, happen, fire) (typing t n p)
]

run-IsSound : (hs : List Happening) {s : Emitter} → IsSound s → IsSound (run hs s)
unfolding run
run-IsSound [] h = h
run-IsSound (a ∷ hs) h = run-IsSound hs (happen-IsSound a h)

abbrev pub IsSettled : Emitter → Type 0
IsSettled s = (s.is_typing ≡ false) × (s.timers ≡ []) × IsPaired s.emitted

let_elapse-IsSound : {s : Emitter} → IsSound s → IsSettled (let_elapse s)
unfolding let_elapse fire
let_elapse-IsSound (quiet n p) = (refl, refl, p)
let_elapse-IsSound (typing t n p) =
    rw (eq_self t, fire) (rw (eq_self t, stop_typing, clear_timeout) (refl, refl, paired p))

-- Typing ends: whatever happened to the hook before, once the timers that are pending have fired, the
-- user is no longer shown as typing, no timer is left, and what was emitted is a sequence of starts,
-- each with its stop behind it.
pub let_elapse-run : (hs : List Happening) → IsSettled (let_elapse (run hs unused))
let_elapse-run hs = let_elapse-IsSound (run-IsSound hs (quiet 1 silent))
