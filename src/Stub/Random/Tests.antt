-- ===== src/Stub/Random/Tests.antt =====
-- Two buffers, of 16 and of 8 bytes.
use mopsa_ocaml.Prelude.{pos, inl, refl, true, ◌==◌, if◌then◌else◌, arith}
use mopsa_ocaml.Stub.Memory.{Ptr, at, Memory}
use mopsa_ocaml.Stub.Random.{Random, initstate, setstate}

abbrev long_buf : Ptr
long_buf = at 1 (pos 0)

abbrev short_buf : Ptr
short_buf = at 2 (pos 0)

abbrev two : Memory
two = record {
  alive = λ b. true;
  size = λ b. if b == 1 then 16 else 8;
  cell = λ b o. 0;
  errno = pos 0;
}

abbrev on_short : Random
on_short = record { memory = two; statebuf = short_buf; statelen = 8 }

abbrev on_long : Random
on_long = record { memory = two; statebuf = long_buf; statelen = 8 }

changes : (setstate long_buf).ensures on_short short_buf on_long
unfolding setstate
changes = (refl, refl, inl (refl, refl))

changes_back : (setstate short_buf).ensures on_long long_buf on_short
unfolding setstate
changes_back = (refl, refl, inl (refl, refl))

abbrev restarted : Random
restarted = record { memory = two; statebuf = long_buf; statelen = 16 }

initialized : (initstate long_buf 16).ensures on_short short_buf restarted
unfolding initstate
initialized = (
  record {
    same_alive = λ b. refl;
    same_size = λ b. refl;
    same_errno = refl;
    same_cell = λ b o h. refl;
  },
  refl,
  refl,
  refl,
)

allowed : (initstate long_buf 16).requires on_short
unfolding initstate
allowed = (omega arith, λ _. (refl, omega arith))
