-- ===== src/Python/Members.antt =====
-- The structure members of cpython/Python.c. What a member's address holds is an argument, and a
-- result where it is written. A read at another type than the one written is undefined: `none`. The
-- warning that a value is truncated is left out.
use mopsa_ocaml.Prelude.{ℤ, pos, negsuc, ◌-◌, Bool, Option, none, some, ltb, if◌then◌else◌}
use Prim.Native.Nat.{◌%◌}
use mopsa_ocaml.Python.State.{
  member_name, readonly_attribute, cannot_delete, bad_member_type, M, Call, pure, call, ◌>>=◌, ◌>>◌,
  Api,
}
use mopsa_ocaml.Python.Errors.{py_err_set_string, py_err_format}
use mopsa_ocaml.Python.Index.{is_error, minus_one}

pub data MemberType : Type 0 where
  t_int t_object t_object_ex : MemberType
  t_other : ℤ → MemberType

-- PyMemberDef; `readonly` is the flag READONLY.
pub record MemberDef : Type 0 where
  pub type : MemberType
  pub readonly : Bool

pub data Field (O : Type 0) : Type 0 where
  number : ℤ → Field O
  pointer : Option O → Field O

-- What PyMember_GetOne and PyMember_SetOne use besides `Api`.
pub record MemberApi (O W : Type 0) : Type 0 where
  pub attribute_error : O
  pub long_from_long : ℤ → Call O W (Option O)

-- `(int) long_val`.
unfoldable pub to_int : ℤ → ℤ
to_int (pos n) =
    let k = n % 4294967296 in if ltb k 2147483648 then pos k else negsuc (4294967295 - k)
to_int (negsuc n) =
    let k = n % 4294967296 in if ltb k 2147483648 then negsuc k else pos (4294967295 - k)

module _ {O W : Type 0} where
  abbrev read_int : Field O → M O W ℤ
  read_int (number n) = pure n
  read_int (pointer p) = λ s. none

  abbrev read_object : Field O → M O W (Option O)
  read_object (number n) = λ s. none
  read_object (pointer p) = pure p

  module _ (api : Api O W) (members : MemberApi O W) where
    unfoldable pub py_member_get_one : MemberDef → Field O → M O W (Option O)
    py_member_get_one l addr = elim l.type [
      | t_int ↦ read_int addr >>= λ n. call (members.long_from_long n)
      | t_object ↦
          read_object addr >>= λ v. pure (elim v [ none ↦ some api.none_object | some o ↦ some o ])
      | t_object_ex ↦ read_object addr >>= λ v. elim v [
        | none ↦ do py_err_set_string (some members.attribute_error) member_name; pure none
        | some o ↦ pure (some o)
      ]
      | t_other t ↦ do py_err_set_string (some api.system_error) bad_member_type; pure none
    ]

    unfoldable pub member_get : MemberDef → Field O → M O W (Option O)
    unfolding py_member_get_one
    member_get descr obj = py_member_get_one descr obj

    -- `*(PyObject **)addr = v`, and the result 0.
    abbrev store_object : Field O → Option O → M O W (ℤ × Field O)
    store_object addr v = read_object addr >>= λ oldv. pure (pos 0, pointer v)

    abbrev refuse : Option O → Field O → M O W (ℤ × Field O)
    refuse o addr = py_err_format o >>= λ _. pure (minus_one, addr)

    -- The switch over the type, for a value that is not null.
    unfoldable pub set_value : MemberType → Field O → O → M O W (ℤ × Field O)
    set_value t_int addr v = call (api.long_as_long v) >>= λ long_val s.
        if is_error long_val s
        then some ((minus_one, addr), s)
        else some ((pos 0, number (to_int long_val)), s)
    set_value t_object addr v = store_object addr (some v)
    set_value t_object_ex addr v = store_object addr (some v)
    set_value (t_other t) addr v = refuse (some api.system_error) addr

    -- The tests and the switch for null.
    unfoldable pub delete_value : MemberType → Field O → M O W (ℤ × Field O)
    delete_value t_int addr = do
      py_err_set_string (some api.type_error) cannot_delete
      pure (minus_one, addr)
    delete_value t_object addr = store_object addr none
    delete_value t_object_ex addr = read_object addr >>= λ v. elim v [
      | none ↦ do
        py_err_set_string (some members.attribute_error) member_name
        pure (minus_one, addr)
      | some o ↦ store_object addr none
    ]
    delete_value (t_other t) addr = do
      py_err_set_string (some api.type_error) cannot_delete
      pure (minus_one, addr)

    unfoldable pub py_member_set_one : MemberDef → Field O → Option O → M O W (ℤ × Field O)
    unfolding set_value delete_value
    py_member_set_one l addr v =
        if l.readonly
        then (do
          py_err_set_string (some members.attribute_error) readonly_attribute
          pure (minus_one, addr))
        else elim v [ none ↦ delete_value l.type addr | some o ↦ set_value l.type addr o ]
