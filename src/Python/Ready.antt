-- ===== src/Python/Ready.antt =====
-- Types that are ready, and what can be iterated over.
use mathlib.Core.Path.{◌≡◌}
use mopsa_ocaml.Prelude.{pos, ◌≢◌, ◌⊎◌, refl, Bool, true, none, arith}
use mopsa_ocaml.Python.Types.{
  TypeName, bool_type, bytes_type, dict_type, TypeObject, Flag, ready, py_type_ready_cheat,
  init_flags, set_default_flags, flagged,
}

flagged_ready : (n : TypeName) → flagged n ready ≡ true
flagged_ready n = ground arith

-- PyType_ReadyCheat returns 1 and changes nothing on each of the 19 type objects after init_flags,
-- on any type object after set_default_flags, and on any type object that it has been called on
-- before.
py_type_ready_cheat-init_flags :
    (default : Flag → Bool) (types : TypeName → TypeObject) (n : TypeName) (t : TypeObject)
    → (py_type_ready_cheat (init_flags default types n) ≡ (pos 1, init_flags default types n))
      × (py_type_ready_cheat (set_default_flags t) ≡ (pos 1, set_default_flags t))
      × (py_type_ready_cheat (py_type_ready_cheat t).1 ≡ (pos 1, (py_type_ready_cheat t).1))
unfolding py_type_ready_cheat init_flags set_default_flags
py_type_ready_cheat-init_flags default types n t =
    (ground (arith, flagged_ready n), refl, ground arith)

-- Whatever the type objects held before init_flags, afterwards every type that it sets up, all but
-- bool, bytes and dict, has tp_iter where it has tp_as_sequence, and where it has tp_iternext it
-- has tp_iter and no tp_as_sequence.
init_flags-iter :
    (default : Flag → Bool) (types : TypeName → TypeObject) (n : TypeName)
    → n ≢ bool_type
    → n ≢ bytes_type
    → n ≢ dict_type
    → let t = init_flags default types n in
      ((t.tp_as_sequence ≡ none) ⊎ (t.tp_iter ≢ none))
      × ((t.tp_iternext ≡ none) ⊎ ((t.tp_as_sequence ≡ none) × (t.tp_iter ≢ none)))
unfolding init_flags
init_flags-iter default types n a b c = ground arith
