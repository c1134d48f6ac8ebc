-- ===== src/Tests/Objects.antt =====
-- Memory blocks and the write loop of src/kern/io.c on concrete inputs.
use operating_systems_final.Prelude.{
  ℕ, min, ◌≡◌, refl, sym, ap, ◌∙◌, none, some, List, [], ◌∷◌, ◌++◌, arith, length, take,
}
use operating_systems_final.Errno.{Reply, done}
use operating_systems_final.Io.{IoOps, WriteFn, iowrite}
use operating_systems_final.Io.Loops.{TakesPrefix, Ended, iowrite-Ended}
use operating_systems_final.Io.Lit.{Lit}
use operating_systems_final.Io.Lit.Contract.{IsValid}

abbrev block : Lit
block = record { buf = 1 ∷ 2 ∷ 3 ∷ 4 ∷ 5 ∷ []; size = 4; pos = 1 }

block-IsValid : IsValid block
block-IsValid = record { storage = omega arith; within = omega arith; word = omega arith }

-- An object that takes two bytes at a time.
abbrev two_at_a_time : WriteFn (List ℕ)
two_at_a_time d buf = (done (min 2 (length buf)), d ++ take (min 2 (length buf)) buf)

abbrev slow_ops : IoOps (List ℕ)
slow_ops = record { read = none; write = some two_at_a_time; ctl = none }

reply : ℕ → List ℕ → Reply × List ℕ
reply m a = (done m, a)

done_inj : (m n : ℕ) (a b : List ℕ) → reply m a ≡ reply n b → (m ≡ n) × (a ≡ b)
unfolding reply
done_inj m n a b e = (cc, cc)

slow-TakesPrefix : TakesPrefix (λ d. d) two_at_a_time
unfolding reply
slow-TakesPrefix d buf n d' e =
    let (count, taken) =
      done_inj (min 2 (length buf)) n (d ++ take (min 2 (length buf)) buf) d' e in
    (omega arith, sym taken ∙ ap (λ k. d ++ take k buf) count)

iowrite-Ended_example :
    Ended (λ d. d) two_at_a_time [] (1 ∷ 2 ∷ 3 ∷ []) 0 (iowrite slow_ops [] (1 ∷ 2 ∷ 3 ∷ []))
iowrite-Ended_example =
    iowrite-Ended slow_ops (λ d. d) two_at_a_time [] (1 ∷ 2 ∷ 3 ∷ []) refl slow-TakesPrefix
