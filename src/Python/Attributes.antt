-- ===== src/Python/Attributes.antt =====
-- What is read back from a structure member.
use mathlib.Core.Path.{◌≡◌}
use mopsa_ocaml.Prelude.{
  ℤ, pos, negsuc, ◌⊎◌, inl, inr, refl, Bool, true, false, Option, none, some, arith,
}
use mopsa_ocaml.Python.State.{State, M, Occurred, Returns, ◌>>=◌, Api}
use mopsa_ocaml.Python.Errors.{py_err_set_string, py_err_format}
use mopsa_ocaml.Python.Index.{minus_one, is_error}
use mopsa_ocaml.Python.Members.{
  MemberType, t_int, t_object, t_object_ex, t_other, MemberDef, Field, number, pointer, MemberApi,
  to_int, py_member_get_one, py_member_set_one, set_value, delete_value,
}
use mopsa_ocaml.Python.Facts.{Fits}

-- The address holds a value of the member's type.
abbrev pub Holds : {O : Type 0} → MemberType → Field O → Type 0
Holds t_int (number n) = Unit
Holds t_int (pointer p) = ⊥
Holds t_object (pointer p) = Unit
Holds t_object (number n) = ⊥
Holds t_object_ex (pointer p) = Unit
Holds t_object_ex (number n) = ⊥
Holds (t_other t) f = Unit

pub to_int-same : (n : ℤ) → Fits 2147483647 n → to_int n ≡ n
unfolding to_int
to_int-same (pos n) fits = ground arith
to_int-same (negsuc n) fits = ground arith

module _ {O W : Type 0} (api : Api O W) (members : MemberApi O W) where
  -- Set a member and get it.
  abbrev pub set_get : MemberDef → Field O → Option O → M O W (Option O)
  set_get l addr v =
      py_member_set_one api members l addr v >>= λ r. py_member_get_one api members l r.1

  -- The value is converted to one that the member's type has.
  abbrev pub Accepts : MemberType → O → State O W → Type 0
  Accepts t_int v s =
      Fits 2147483647 (api.long_as_long v s).0
      × (is_error (api.long_as_long v s).0 (api.long_as_long v s).1 ≡ false)
  Accepts t_object v s = Unit
  Accepts t_object_ex v s = Unit
  Accepts (t_other t) v s = ⊥

  -- The object itself, or the int that it was converted to.
  abbrev pub read_back : MemberType → O → State O W → Option (Option O × State O W)
  read_back t_int v s = let (n, t) = api.long_as_long v s in some (members.long_from_long n t)
  read_back _ v s = some (some v, s)

  -- For a member that is not READONLY, of type T_OBJECT, T_OBJECT_EX or T_INT, whose address holds
  -- a value of that type, and for T_INT a value that PyLong_AsLong converts without an error to one
  -- that fits an int: PyMember_SetOne of the value and then PyMember_GetOne give the object itself,
  -- or for T_INT what PyLong_FromLong makes of the converted value.
  pub py_member_set_one-get_one :
      (t : MemberType) (addr : Field O) (v : O) (s : State O W)
      → Holds t addr
      → Accepts t v s
      → set_get (record { type = t; readonly = false }) addr (some v) s ≡ read_back t v s
  unfolding py_member_set_one py_member_get_one set_value
  py_member_set_one-get_one t_int (pointer p) v s holds ok = absurd holds
  py_member_set_one-get_one t_int (number n) v s holds ok =
      ground (arith, to_int-same (api.long_as_long v s).0 ok.0)
  py_member_set_one-get_one t_object (pointer p) v s holds ok = refl
  py_member_set_one-get_one t_object (number n) v s holds ok = absurd holds
  py_member_set_one-get_one t_object_ex (pointer p) v s holds ok = refl
  py_member_set_one-get_one t_object_ex (number n) v s holds ok = absurd holds
  py_member_set_one-get_one (t_other t) addr v s holds ok = absurd ok

  -- The member is set, or left as it was with an exception pending.
  abbrev pub Updated : MemberType → Field O → ℤ × Field O → State O W → Type 0
  Updated t addr r u =
      ((r.0 ≡ pos 0) × Holds t r.1) ⊎ ((r.0 ≡ minus_one) × (r.1 ≡ addr) × Occurred u)

  set_value-Updated :
      (t : MemberType) (addr : Field O) (v : O) (s : State O W)
      → Holds t addr
      → Returns (set_value api members t addr v s) (Updated t addr)
  unfolding set_value py_err_format py_err_set_string
  set_value-Updated t_int (number n) v s holds = ground arith
  set_value-Updated t_int (pointer p) v s holds = absurd holds
  set_value-Updated t_object (pointer p) v s holds = inl (refl, holds)
  set_value-Updated t_object (number n) v s holds = absurd holds
  set_value-Updated t_object_ex (pointer p) v s holds = inl (refl, holds)
  set_value-Updated t_object_ex (number n) v s holds = absurd holds
  set_value-Updated (t_other t) addr v s holds = inr (refl, refl, ground arith)

  delete_value-Updated :
      (t : MemberType) (addr : Field O) (s : State O W)
      → Holds t addr
      → Returns (delete_value api members t addr s) (Updated t addr)
  unfolding delete_value py_err_set_string
  delete_value-Updated t_int addr s holds = inr (refl, refl, ground arith)
  delete_value-Updated t_object (pointer p) s holds = inl (refl, holds)
  delete_value-Updated t_object (number n) s holds = absurd holds
  delete_value-Updated t_object_ex (pointer none) s holds = inr (refl, refl, ground arith)
  delete_value-Updated t_object_ex (pointer (some o)) s holds = inl (refl, holds)
  delete_value-Updated t_object_ex (number n) s holds = absurd holds
  delete_value-Updated (t_other t) addr s holds = inr (refl, refl, ground arith)

  -- For any type of member, READONLY or not, whose address holds a value of that type, and any new
  -- value, null included: PyMember_SetOne ends, and either returns 0 and the address holds a value
  -- of the member's type, or returns -1, leaves the address as it was and an exception is pending.
  pub py_member_set_one-Updated :
      (t : MemberType) (readonly : Bool) (addr : Field O) (v : Option O) (s : State O W)
      → Holds t addr
      → Returns
          (py_member_set_one api members (record { type = t; readonly = readonly }) addr v s)
          (Updated t addr)
  unfolding py_member_set_one py_err_set_string
  py_member_set_one-Updated t true addr v s holds = inr (refl, refl, ground arith)
  py_member_set_one-Updated t false addr none s holds = delete_value-Updated t addr s holds
  py_member_set_one-Updated t false addr (some v) s holds = set_value-Updated t addr v s holds
