-- ===== src/Stub/Random/Buffers.antt =====
-- The buffers that initstate and setstate exchange.
use mathlib.Core.Path.{◌≡◌}
use mopsa_ocaml.Prelude.{ℕ, pos, ◌+◌, ◌∙◌, ◌<◌, ◌≢◌, inl, inr, arith}
use mopsa_ocaml.Stub.Memory.{Ptr, null, at, ValidBytes}
use mopsa_ocaml.Stub.Random.{Random, initstate, setstate}

setstate_done :
    (buf : Ptr) (w : Random) (r : Ptr) (w' : Random)
    → (setstate buf).ensures w r w'
    → r ≢ null
    → (w'.memory ≡ w.memory) × (r ≡ w.statebuf)
unfolding setstate
setstate_done buf w r w' (_, _, inl e) ok = e
setstate_done buf w r w' (_, _, inr e) ok = absurd (ok e.1)

-- If the state buffer in use is valid for the state length, setstate returns a pointer that is not
-- null, then setstate's requirement holds for that pointer; and if a second call, with it, returns
-- one that is not null, then that is the first call's argument, and buffer, length and memory are
-- as at the start.
setstate-setstate :
    (buf : Ptr) (w : Random) (old : Ptr) (w1 : Random) (new : Ptr) (w2 : Random)
    → ValidBytes w.memory w.statebuf w.statelen
    → (setstate buf).ensures w old w1
    → old ≢ null
    → (setstate old).ensures w1 new w2
    → new ≢ null
    → (setstate old).requires w1
      × (new ≡ buf)
      × (w2.statebuf ≡ w.statebuf)
      × (w2.statelen ≡ w.statelen)
      × (w2.memory ≡ w.memory)
unfolding setstate
setstate-setstate buf w old w1 new w2 valid first ok second done =
    let (memory1, back) = setstate_done buf w old w1 first ok in
    let (memory2, again) = setstate_done old w1 new w2 second done in
    (
      rw (back, memory1, first.1) valid,
      again ∙ first.0,
      second.0 ∙ back,
      second.1 ∙ first.1,
      memory2 ∙ memory1,
    )

-- After initstate of a buffer longer than what is left of the old one's block, setstate's requirement
-- does not hold for the old one.
initstate-setstate :
    (buf : Ptr) (n : ℕ) (w : Random) (b o : ℕ) (w1 : Random)
    → w.statebuf ≡ at b (pos o)
    → w.memory.size b < o + n
    → (initstate buf n).requires w
    → (initstate buf n).ensures w (at b (pos o)) w1
    → ¬ (setstate (at b (pos o))).requires w1
unfolding initstate setstate
initstate-setstate buf n w b o w1 at_b short allowed (assigned, _, e_len, _) req =
    let (live, fits) = req (omega (arith, allowed.0, e_len)) in
    absurd (omega (arith, fits, e_len, assigned.same_size b, short))
