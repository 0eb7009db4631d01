-- ===== src/Python/Tests/Members.antt =====
-- A structure member that is set and read.
use mathlib.Core.Path.{◌≡◌}
use mopsa_ocaml.Prelude.{ℕ, pos, refl, false, none, some, arith}
use mopsa_ocaml.Python.State.{Returns}
use mopsa_ocaml.Python.Members.{t_int, t_object_ex, number, pointer, MemberApi, py_member_set_one}
use mopsa_ocaml.Python.Attributes.{
  set_get, read_back, Updated, py_member_set_one-get_one, py_member_set_one-Updated,
}
use mopsa_ocaml.Python.Tests.{api, quiet}

abbrev members : MemberApi ℕ (Unit {0})
members = record { attribute_error = 55; long_from_long = λ n s. (some 71, s) }

py_member_set_one-get_one_example :
    set_get api members (record { type = t_int; readonly = false }) (number (pos 5)) (some 8) quiet
    ≡ read_back api members t_int 8 quiet
py_member_set_one-get_one_example =
    py_member_set_one-get_one api members t_int (number (pos 5)) 8 quiet tt (omega arith, refl)

py_member_set_one-Updated_example :
    Returns
      (py_member_set_one api members
        (record { type = t_object_ex; readonly = false })
        (pointer none)
        none
        quiet)
      (Updated api members t_object_ex (pointer none))
py_member_set_one-Updated_example =
    py_member_set_one-Updated api members t_object_ex false (pointer none) none quiet tt
