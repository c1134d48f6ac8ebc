-- ===== src/Tests/Terminals.antt =====
-- Terminals and strings on concrete inputs.
use mathlib.Core.List.{append-nil}
use operating_systems_final.Prelude.{
  ℕ, suc, ◌+◌, ◌-◌, ◌≤◌, ◌<◌, ◌≡◌, refl, sym, inr, true, false, none, some, List, [], ◌∷◌, ◌++◌,
  arith, ◌==◌, if◌then◌else◌, length, take, drop, negsuc,
}
use operating_systems_final.Errno.{done}
use operating_systems_final.Io.{IoOps, ioread, iowrite, write_loop, write_out}
use operating_systems_final.Io.Term.{Term, ioterm_read, ioterm_write}
use operating_systems_final.Io.Term.Input.{ioterm_read_stuck}
use operating_systems_final.Io.Term.Output.{TakesAll, sent_lines, skipped, ioterm_write-sent_lines}
use operating_systems_final.String.{strcmp, strcmp_bytes, strlen, int_digits, vsnprintf}
use operating_systems_final.String.Format.{value_of, int_digits-value, vsnprintf-take}

-- A console: what is written joins the end, and a read gives an `A`.
abbrev console : IoOps (List ℕ)
console = record {
  read = some (λ d n. if n == 0 then (done 0, [], d) else (done 1, 65 ∷ [], d));
  write = some (λ d buf. (done (length buf), d ++ buf));
  ctl = none;
}

drop_all : (cs : List ℕ) → drop (length cs) cs ≡ []
drop_all [] = refl
drop_all (c ∷ cs) = drop_all cs

console-TakesAll : TakesAll console (λ d. d)
unfolding iowrite write_loop write_out
console-TakesAll d [] = (d, refl, sym (append-nil d))
console-TakesAll d (c ∷ cs) =
    let moved : (suc (length cs) == 0) ≡ false = ground arith in
    let count : 0 + suc (length cs) ≡ suc (length cs) = omega arith in
    (d ++ (c ∷ cs), rw (moved, drop_all cs, count) refl, refl)

abbrev terminal : Term (List ℕ)
terminal = record { rawio = []; cr_out = true; cr_in = true }

-- A newline, `A`, a return at the end.
ioterm_write-sent_lines_example :
    (t' : Term (List ℕ)) × (ioterm_write console terminal (10 ∷ 65 ∷ 13 ∷ [])
      ≡ some (done (3 - skipped true (10 ∷ 65 ∷ 13 ∷ [])), t'))
    × (t'.rawio ≡ sent_lines true (10 ∷ 65 ∷ 13 ∷ []))
ioterm_write-sent_lines_example =
    ioterm_write-sent_lines console (λ d. d) terminal (10 ∷ 65 ∷ 13 ∷ []) console-TakesAll

abbrev ended : IoOps ℕ
ended = record { read = some (λ d n. (done 0, [], d)); write = none; ctl = none }

at_end : ioread ended 5 8 ≡ (done 0, [], 5)
unfolding ioread
at_end = refl

abbrev closed_terminal : Term ℕ
closed_terminal = record { rawio = 5; cr_out = false; cr_in = false }

ioterm_read_stuck_example : ioterm_read ended 9 closed_terminal 8 ≡ none
ioterm_read_stuck_example = ioterm_read_stuck ended 9 closed_terminal 8 at_end

sooner : strcmp (some (65 ∷ [])) (some (65 ∷ 200 ∷ [])) ≡ negsuc 0
unfolding strcmp strcmp_bytes
sooner = refl

two_long : strlen (65 ∷ 66 ∷ []) < 3
unfolding strlen
two_long = omega arith

int_digits-value_example :
    (ds : List ℕ) × (int_digits 16 51966 ≡ some ds) × (value_of 16 0 ds ≡ 51966) × (length ds ≤ 40)
int_digits-value_example = int_digits-value 16 51966 (inr refl) (omega arith)

vsnprintf-take_example :
    vsnprintf 3 (65 ∷ 66 ∷ 67 ∷ [])
    ≡ (if 3 == 0 then [] else take (3 - 1) (65 ∷ 66 ∷ 67 ∷ []) ++ (0 ∷ []))
vsnprintf-take_example = vsnprintf-take (65 ∷ 66 ∷ 67 ∷ []) 3
