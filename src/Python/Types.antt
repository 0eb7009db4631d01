-- ===== src/Python/Types.antt =====
-- The type objects of cpython/python_stubs.c. A null pointer is `none`; the other fields of a type are
-- not assigned there.
use mopsa_ocaml.Prelude.{ℤ, pos, Bool, true, false, ◌||◌, Option, none, some, if◌then◌else◌}

pub data TypeName : Type 0 where
  type_type object_type bool_type long_type float_type unicode_type list_type list_iter_type
        slice_type set_type :
      TypeName
  set_iter_type range_type range_iter_type tuple_type tuple_iter_type none_type not_implemented_type
        bytes_type dict_type :
      TypeName

-- The tables that the file declares.
pub data Sequence : Type 0 where
  unicode_as_sequence list_as_sequence tuple_as_sequence range_as_sequence : Sequence
  set_as_sequence : Sequence

pub data Mapping : Type 0 where
  unicode_as_mapping : Mapping

-- The functions that slots are set to.
pub data Slot : Type 0 where
  py_iter_next py_object_get_iter py_type_generic_alloc : Slot

-- The flags Py_TPFLAGS_*.
pub data Flag : Type 0 where
  readying ready have_gc basetype heaptype have_version_tag : Flag
  type_subclass long_subclass unicode_subclass list_subclass tuple_subclass bytes_subclass
        dict_subclass :
      Flag

pub record TypeObject : Type 0 where
  pub ob_type : Option TypeName
  pub tp_as_sequence : Option Sequence
  pub tp_as_mapping : Option Mapping
  pub tp_as_number : Option (Unit {0})
  pub tp_iternext : Option Slot
  pub tp_iter : Option Slot
  pub tp_alloc : Option Slot
  pub tp_basicsize : ℤ
  pub tp_itemsize : ℤ
  pub tp_flags : Flag → Bool

unfoldable pub py_type_ready_cheat : TypeObject → ℤ × TypeObject
py_type_ready_cheat type = if type.tp_flags ready then (pos 1, type) else (
  pos 0,
  record type {
    ob_type = some type_type;
    tp_flags = λ f. elim f as (λ _. Bool) [
      | readying ↦ false
      | ready ↦ true
      | have_gc ↦ type.tp_flags have_gc
      | basetype ↦ type.tp_flags basetype
      | heaptype ↦ type.tp_flags heaptype
      | have_version_tag ↦ type.tp_flags have_version_tag
      | type_subclass ↦ type.tp_flags type_subclass
      | long_subclass ↦ type.tp_flags long_subclass
      | unicode_subclass ↦ type.tp_flags unicode_subclass
      | list_subclass ↦ type.tp_flags list_subclass
      | tuple_subclass ↦ type.tp_flags tuple_subclass
      | bytes_subclass ↦ type.tp_flags bytes_subclass
      | dict_subclass ↦ type.tp_flags dict_subclass
    ];
    tp_alloc = some py_type_generic_alloc;
  },
)

-- Py_TYPE.
abbrev pub typed : TypeName → Option TypeName → Option TypeName
typed type_type old = some type_type
typed object_type old = some type_type
typed long_type old = some type_type
typed float_type old = some type_type
typed unicode_type old = some type_type
typed list_type old = some type_type
typed list_iter_type old = some type_type
typed slice_type old = some type_type
typed set_type old = some type_type
typed set_iter_type old = some type_type
typed range_type old = some type_type
typed range_iter_type old = some type_type
typed tuple_type old = some type_type
typed tuple_iter_type old = some type_type
typed none_type old = some type_type
typed not_implemented_type old = some type_type
typed bytes_type old = some type_type
typed dict_type old = some type_type
typed _ old = old

-- tp_as_sequence.
abbrev pub sequence : TypeName → Option Sequence → Option Sequence
sequence type_type old = none
sequence object_type old = none
sequence long_type old = none
sequence float_type old = none
sequence unicode_type old = some unicode_as_sequence
sequence list_type old = some list_as_sequence
sequence list_iter_type old = none
sequence slice_type old = none
sequence set_type old = some set_as_sequence
sequence set_iter_type old = none
sequence range_type old = some range_as_sequence
sequence range_iter_type old = none
sequence tuple_type old = some tuple_as_sequence
sequence tuple_iter_type old = none
sequence none_type old = none
sequence not_implemented_type old = none
sequence _ old = old

-- tp_as_mapping.
abbrev pub mapping : TypeName → Option Mapping → Option Mapping
mapping unicode_type old = some unicode_as_mapping
mapping _ old = old

-- tp_iternext.
abbrev pub iternext : TypeName → Option Slot → Option Slot
iternext type_type old = none
iternext object_type old = none
iternext long_type old = none
iternext float_type old = none
iternext unicode_type old = none
iternext list_type old = none
iternext list_iter_type old = some py_iter_next
iternext slice_type old = none
iternext set_type old = none
iternext set_iter_type old = some py_iter_next
iternext range_type old = none
iternext range_iter_type old = some py_iter_next
iternext tuple_type old = none
iternext tuple_iter_type old = some py_iter_next
iternext none_type old = none
iternext not_implemented_type old = none
iternext _ old = old

-- tp_iter.
abbrev pub iter : TypeName → Option Slot → Option Slot
iter type_type old = none
iter object_type old = none
iter long_type old = none
iter float_type old = none
iter unicode_type old = some py_object_get_iter
iter list_type old = some py_object_get_iter
iter list_iter_type old = some py_object_get_iter
iter slice_type old = none
iter set_type old = some py_object_get_iter
iter set_iter_type old = some py_object_get_iter
iter range_type old = some py_object_get_iter
iter range_iter_type old = some py_object_get_iter
iter tuple_type old = some py_object_get_iter
iter tuple_iter_type old = some py_object_get_iter
iter none_type old = none
iter not_implemented_type old = none
iter _ old = old

-- tp_as_number.
abbrev pub number : TypeName → Option (Unit {0}) → Option (Unit {0})
number float_type old = none
number _ old = old

-- tp_flags, over the header's Py_TPFLAGS_DEFAULT; Py_TPFLAGS_READY is set for all.
abbrev pub flagged : TypeName → Flag → Bool
flagged type_type have_gc = true
flagged type_type basetype = true
flagged type_type type_subclass = true
flagged object_type basetype = true
flagged long_type basetype = true
flagged long_type long_subclass = true
flagged float_type basetype = true
flagged unicode_type basetype = true
flagged unicode_type unicode_subclass = true
flagged list_type have_gc = true
flagged list_type basetype = true
flagged list_type list_subclass = true
flagged list_iter_type have_gc = true
flagged slice_type have_gc = true
flagged set_type have_gc = true
flagged set_type basetype = true
flagged set_iter_type have_gc = true
flagged range_iter_type have_gc = true
flagged tuple_type have_gc = true
flagged tuple_type basetype = true
flagged tuple_type tuple_subclass = true
flagged tuple_iter_type have_gc = true
flagged bytes_type basetype = true
flagged bytes_type bytes_subclass = true
flagged dict_type have_gc = true
flagged dict_type basetype = true
flagged dict_type dict_subclass = true
flagged _ ready = true
flagged _ _ = false

module _ (default : Flag → Bool) where
  unfoldable pub init_flags : (TypeName → TypeObject) → TypeName → TypeObject
  init_flags types n = record (types n) {
    ob_type = typed n (types n).ob_type;
    tp_as_sequence = sequence n (types n).tp_as_sequence;
    tp_as_mapping = mapping n (types n).tp_as_mapping;
    tp_iternext = iternext n (types n).tp_iternext;
    tp_iter = iter n (types n).tp_iter;
    tp_as_number = number n (types n).tp_as_number;
    tp_flags = λ f. default f || flagged n f;
  }

unfoldable pub set_tp_alloc_py_class : TypeObject → TypeObject → TypeObject
set_tp_alloc_py_class t base = record t {
  tp_alloc = some py_type_generic_alloc;
  tp_basicsize = base.tp_basicsize;
  tp_itemsize = base.tp_itemsize;
  tp_iternext = base.tp_iternext;
}

abbrev default_flag : Flag → Bool
default_flag heaptype = true
default_flag basetype = true
default_flag ready = true
default_flag have_gc = true
default_flag have_version_tag = true
default_flag _ = false

unfoldable pub set_default_flags : TypeObject → TypeObject
set_default_flags t = record t {
  tp_flags = default_flag;
  tp_as_sequence = none;
  tp_as_number = none;
  tp_as_mapping = none;
}
