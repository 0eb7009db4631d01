-- ===== src/Python/Tests/Ready.antt =====
-- Types before init_flags.
use mopsa_ocaml.Prelude.{pos, false, none}
use mopsa_ocaml.Python.Types.{list_type, TypeObject, init_flags}

abbrev blank : TypeObject
blank = record {
  ob_type = none;
  tp_as_sequence = none;
  tp_as_mapping = none;
  tp_as_number = none;
  tp_iternext = none;
  tp_iter = none;
  tp_alloc = none;
  tp_basicsize = pos 16;
  tp_itemsize = pos 0;
  tp_flags = λ f. false;
}

abbrev listed : TypeObject
listed = init_flags (λ f. false) (λ n. blank) list_type
