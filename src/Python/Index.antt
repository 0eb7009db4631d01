-- ===== src/Python/Index.antt =====
-- Indexes and sequences of cpython/Python.c. Reference counts are not kept there either.
use mopsa_ocaml.Prelude.{ℤ, pos, negsuc, Bool, false, ◌&&◌, Option, none, some, if◌then◌else◌, ◌==◌}
use mopsa_ocaml.Prelude.Integer.{is_negative, plus}
use mopsa_ocaml.Python.State.{
  State, M, Call, pure, call, occurred, assert_occurred, ◌>>=◌, ◌>>◌, Api,
}
use mopsa_ocaml.Python.Errors.{py_err_format, null_error, type_error}

-- -1.
abbrev pub minus_one : ℤ
minus_one = negsuc 0

-- `i == -1`.
abbrev pub is_minus_one : ℤ → Bool
is_minus_one (pos n) = false
is_minus_one (negsuc n) = n == 0

module _ {O W : Type 0} where
  -- `i == -1 && PyErr_Occurred()`.
  abbrev pub is_error : ℤ → State O W → Bool
  is_error (pos n) s = false
  is_error (negsuc n) s = n == 0 && occurred s

  module _ (api : Api O W) where
    unfoldable pub py_number_index : Option O → M O W (Option O)
    py_number_index none = null_error api
    py_number_index (some item) =
        if api.is_long item then pure (some item) else py_err_format (some api.type_error)

    unfoldable pub py_number_as_ssize_t : Option O → M O W ℤ
    py_number_as_ssize_t item = py_number_index item >>= λ value. elim value [
      | none ↦ pure minus_one
      | some v ↦ call (api.long_as_ssize_t v)
    ]

    -- `i += n`, where the type has a length: a negative length is an error.
    abbrev pub from_end : O → ℤ → (O → Call O W ℤ) → M O W (Option ℤ)
    from_end self i length = call (length self) >>= λ n.
        if is_negative n then (do assert_occurred; pure none) else pure (some (plus i n))

    unfoldable pub getindex : O → Option O → M O W ℤ
    getindex self arg = py_number_as_ssize_t arg >>= λ i s.
        if is_error i s
        then some (minus_one, s)
        else if is_negative i
        then elim (api.sq_length self) [
          | none ↦ some (i, s)
          | some length ↦
              (from_end self i length >>= λ k. elim k [ none ↦ pure minus_one | some j ↦ pure j ]) s
        ]
        else some (i, s)

    unfoldable pub py_sequence_size : Option O → M O W ℤ
    py_sequence_size none = null_error api >>= λ _. pure minus_one
    py_sequence_size (some s) = elim (api.sq_length s) [
      | none ↦ type_error api >>= λ _. pure minus_one
      | some length ↦ call (length s) >>= λ len.
          if is_negative len then (do assert_occurred; pure len) else pure len
    ]

    unfoldable pub py_sequence_get_item : Option O → ℤ → M O W (Option O)
    py_sequence_get_item none i = null_error api
    py_sequence_get_item (some s) i = elim (api.sq_item s) [
      | none ↦ type_error api
      | some item ↦
          if is_negative i
          then elim (api.sq_length s) [
            | none ↦ call (item s i)
            | some length ↦
                from_end s i length >>= λ k. elim k [ none ↦ pure none | some j ↦ call (item s j) ]
          ]
          else call (item s i)
    ]
