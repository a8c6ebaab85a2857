-- ===== src/Agent/Loop.antt =====
-- openjax-core/src/agent/loop_detector.rs: warns of a tool call that is repeated, then halts. A call is the
-- tool's name and the hash of its arguments.
pub mod Streaks
use open_jax.Prelude.{
  ℕ, String, Bool, true, false, ◌&&◌, Option, none, some, List, [], ◌∷◌, ◌++◌, length, take_while,
  tail, str_eq, leb, ltb, if◌then◌else◌,
}

pub data LoopSignal : Type 0 where
  quiet warned halt : LoopSignal

abbrev pub Key : Type 0
Key = String × String

abbrev pub key_eq : Key → Key → Bool
key_eq a b = str_eq a.0 b.0 && str_eq a.1 b.1

pub record LoopDetector : Type 0 where
  pub window : List Key
  pub state : LoopSignal
  pub warned_tool : Option Key
  pub window_capacity : ℕ
  pub warn_threshold : ℕ

abbrev pub new : LoopDetector
new = record {
  window = [];
  state = quiet;
  warned_tool = none;
  window_capacity = 16;
  warn_threshold = 5;
}

abbrev pub reverse {ℓ} : {A : Type ℓ} → List A → List A
reverse [] = []
reverse (x ∷ xs) = reverse xs ++ x ∷ []

-- `iter().rev().take_while(..).count()`
abbrev pub run {ℓ} : {A : Type ℓ} → (A → Bool) → List A → ℕ
run p xs = length (take_while p (reverse xs))

-- `pop_front` when the window has grown over its capacity
abbrev pub trim : ℕ → List Key → List Key
trim capacity window = if ltb capacity (length window) then tail window else window

-- The part of a check after the one for a call that was warned of.
unfoldable pub advance : Key → LoopDetector → LoopSignal × LoopDetector
advance key d =
    let window = trim d.window_capacity (d.window ++ key ∷ []) in
    let consecutive_count = run (key_eq key) window in
    if leb d.warn_threshold consecutive_count
    then (warned, record d { window = window; state = warned; warned_tool = some key })
    else (quiet, record d { window = window })

-- `Some(&key) == self.warned_tool.as_ref()`
abbrev pub is_warned_tool : Key → Option Key → Bool
is_warned_tool key none = false
is_warned_tool key (some w) = key_eq key w

unfoldable pub check_in : LoopSignal → Key → LoopDetector → LoopSignal × LoopDetector
unfolding advance
check_in warned key d =
    let on = advance key (record d { state = quiet; warned_tool = none }) in
    if is_warned_tool key d.warned_tool then (halt, record d { state = halt }) else on
check_in quiet key d = advance key d
check_in halt key d = advance key d

unfoldable pub check_and_advance : Key → LoopDetector → LoopSignal × LoopDetector
unfolding check_in
check_and_advance key d = check_in d.state key d

unfoldable pub has_recovery_prompt : LoopDetector → Bool
has_recovery_prompt d = elim d.state [ warned ↦ true | _ ↦ false ]

unfoldable pub reset : LoopDetector → LoopDetector
reset d = record d { window = []; state = quiet; warned_tool = none }
