-- ===== src/Python/State.antt =====
-- The pending exception of cpython/python_stubs.h, and the API functions that the analyzer or other
-- files implement, as parameters.
use mopsa_ocaml.Prelude.{ℕ, ℤ, ◌≢◌, Bool, true, false, Option, none, some, if◌then◌else◌}

-- The message of an exception: one of the literals in the code, or a formatted one.
pub data Message : Type 0 where
  no_message bad_argument bad_internal_call not_a_tuple null_argument : Message
  int_too_large int_too_small short_too_large short_too_small : Message
  error_without_exception formatted : Message
  member_name readonly_attribute cannot_delete bad_member_type given : Message

-- `*exc`, and all that the API functions read and write besides. A null pointer is `none`. The
-- memory that PyErr_SetString allocates, and does not free, is not counted.
pub record State (O W : Type 0) : Type 0 where
  pub exc_state : Option O
  pub exc_msg : Message
  pub world : W

-- A C function; `none` is a failed assertion.
abbrev pub M : (O W A : Type 0) → Type 0
M O W A = State O W → Option (A × State O W)

-- A function outside this file.
abbrev pub Call : (O W A : Type 0) → Type 0
Call O W A = State O W → A × State O W

module _ {O W : Type 0} where
  abbrev pub pure : {A : Type 0} → A → M O W A
  pure a s = some (a, s)

  abbrev pub and_then :
      {A B : Type 0} → Option (A × State O W) → (A → M O W B) → Option (B × State O W)
  and_then none f = none
  and_then (some (a, s)) f = f a s

  abbrev pub call : {A : Type 0} → Call O W A → M O W A
  call f s = some (f s)

  -- PyErr_Occurred().
  abbrev pub occurred : State O W → Bool
  occurred s = elim s.exc_state [ none ↦ false | some o ↦ true ]

  -- `assert(PyErr_Occurred())`.
  abbrev pub assert_occurred : M O W (Unit {0})
  assert_occurred s = if occurred s then some (tt, s) else none

  abbrev pub Occurred : State O W → Type 0
  Occurred s = s.exc_state ≢ none

  -- The function ends, and its result and the state after it are so.
  abbrev pub Returns : {A : Type 0} → Option (A × State O W) → (A → State O W → Type 0) → Type 0
  Returns none P = ⊥
  Returns (some (a, s)) P = P a s

infixl 5 ◌>>=◌ ◌>>◌
abbrev pub ◌>>=◌ : {O W A B : Type 0} → M O W A → (A → M O W B) → M O W B
◌>>=◌ p f s = and_then (p s) f

abbrev pub ◌>>◌ : {O W B : Type 0} → M O W (Unit {0}) → M O W B → M O W B
◌>>◌ p q s = and_then (p s) λ _. q

-- The exceptions, the constants and the functions of the API. A slot of a type that is null is
-- `none`, as is one in a table that is null.
pub record Api (O W : Type 0) : Type 0 where
  pub memory_error : O
  pub type_error : O
  pub system_error : O
  pub overflow_error : O
  pub stop_iteration : O
  pub none_object : O
  pub true_object : O
  pub false_object : O
  pub is_long : O → Bool
  pub is_tuple : O → Bool
  pub long_as_long : O → Call O W ℤ
  pub long_as_ssize_t : O → Call O W ℤ
  pub long_from_ssize_t : ℤ → Call O W (Option O)
  pub tuple_size : O → Call O W ℤ
  pub tuple_get_item : O → ℕ → Call O W (Option O)
  pub sq_length : O → Option (O → Call O W ℤ)
  pub sq_item : O → Option (O → ℤ → Call O W (Option O))
