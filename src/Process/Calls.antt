-- ===== src/Process/Calls.antt =====
-- sysread, syswrite and sysioctl of src/kern/syscall.c: calls on the open objects of a process. The
-- buffer is not checked, neither here nor in the source.
use mathlib.Core.Path.{ap₂}
use operating_systems_final.Prelude.{
  ℕ, ◌+◌, ◌≤◌, ◌<◌, ◌≡◌, refl, ap, ◌∙◌, true, false, Option, none, some, List, [], ◌∷◌, ◌++◌, arith,
  leb, ◌==◌, if◌then◌else◌, length, get_or,
}
use operating_systems_final.Errno.{Reply, done, fail, einval}
use operating_systems_final.Io.{IoOps, Cmd, Answer, refused, ioread, iowrite, ioctl}
use operating_systems_final.Io.Laws.{slice, IsReader}
use operating_systems_final.Process.{
  Iotab, System, iotab_of, process_iomax, verify_fd, process_fork,
}

-- The states of the objects, by their numbers.
abbrev pub States : Type 0 → Type 0
States D = ℕ → D

module _ {D : Type 0} where
  unfoldable pub set_state : ℕ → D → States D → States D
  set_state y d st o = if y == o then d else st o

  module _ (ops : ℕ → IoOps D) where
    -- The object of an entry; the check leaves no other.
    unfoldable pub read_entry : Option ℕ → ℕ → States D → Reply × List ℕ × States D
    read_entry none bufsz st = (fail einval, [], st)
    read_entry (some y) bufsz st =
        let (r, bytes, d) = ioread (ops y) (st y) bufsz in (r, bytes, set_state y d st)

    -- `t` is the table of the process; a negative number is `none`.
    unfoldable pub sysread : Iotab → Option ℕ → ℕ → States D → Reply × List ℕ × States D
    sysread t none bufsz st = (fail einval, [], st)
    sysread t (some fd) bufsz st = elim (verify_fd t (some fd)) [
      | fail e ↦ (fail e, [], st)
      | done n ↦ read_entry (get_or t fd none) bufsz st
    ]

    unfoldable pub write_entry : Option ℕ → List ℕ → States D → Option (Reply × States D)
    write_entry none buf st = some (fail einval, st)
    write_entry (some y) buf st = elim (iowrite (ops y) (st y) buf) [
      | none ↦ none
      | some (r, d) ↦ some (r, set_state y d st)
    ]

    -- `none`: the loop of iowrite is out of fuel.
    unfoldable pub syswrite : Iotab → Option ℕ → List ℕ → States D → Option (Reply × States D)
    syswrite t none buf st = some (fail einval, st)
    syswrite t (some fd) buf st = elim (verify_fd t (some fd)) [
      | fail e ↦ some (fail e, st)
      | done n ↦ write_entry (get_or t fd none) buf st
    ]

    unfoldable pub ioctl_entry : Option ℕ → Cmd → States D → Answer × States D
    ioctl_entry none cmd st = (refused einval, st)
    ioctl_entry (some y) cmd st = let (a, d) = ioctl (ops y) (st y) cmd in (a, set_state y d st)

    unfoldable pub sysioctl : Iotab → Option ℕ → Cmd → States D → Answer × States D
    sysioctl t none cmd st = (refused einval, st)
    sysioctl t (some fd) cmd st = elim (verify_fd t (some fd)) [
      | fail e ↦ (refused e, st)
      | done n ↦ ioctl_entry (get_or t fd none) cmd st
    ]

set_state_self : {D : Type 0} (y : ℕ) (d : D) (st : States D) → set_state y d st y ≡ d
unfolding set_state
set_state_self y d st = let e : (y == y) ≡ true = ground arith in rw e refl

get_or_last : (xs : List Iotab) (t : Iotab) → get_or (xs ++ (t ∷ [])) (length xs) [] ≡ t
get_or_last [] t = refl
get_or_last (x ∷ xs) t = get_or_last xs t

-- The child's table is the parent's.
pub iotab_of-process_fork :
    (p : ℕ) (s : System) → iotab_of (process_fork p s) (length s.iotabs) ≡ iotab_of s p
unfolding process_fork
iotab_of-process_fork p s = get_or_last s.iotabs (iotab_of s p)

verify_fd-held :
    (t : Iotab) (fd y : ℕ)
    → fd < process_iomax
    → get_or t fd none ≡ some y
    → verify_fd t (some fd) ≡ done 0
unfolding verify_fd
verify_fd-held t fd y small held =
    let e : leb process_iomax fd ≡ false = ground (arith, small) in rw (e, held) refl

module _ {D : Type 0} (ops : ℕ → IoOps D) where
  sysread_entry :
      (t : Iotab) (fd y n : ℕ) (st : States D) (b : List ℕ) (d : D)
      → fd < process_iomax
      → get_or t fd none ≡ some y
      → ioread (ops y) (st y) n ≡ (done n, b, d)
      → sysread ops t (some fd) n st ≡ (done n, b, set_state y d st)
  unfolding sysread read_entry
  sysread_entry t fd y n st b d small held got =
      rw (verify_fd-held t fd y small held, sysread)
        (ap (λ o. read_entry ops o n st) held ∙ ap (λ x. (x.0, x.1, set_state y x.2 st)) got)

  -- Over an open object whose reads of at least one byte give its bytes at a position and move it:
  -- when a process reads some bytes by a number below 16 and the child that it has made by
  -- process_fork then reads some by the same number, at least one each and no more than are left,
  -- the child gets the bytes behind those of its parent: the two have the position together.
  pub sysread-process_fork :
      (s : System) (p fd y n k : ℕ) (st : States D) (F : IsReader (ops y))
      → fd < process_iomax
      → get_or (iotab_of s p) fd none ≡ some y
      → F.Ok (st y)
      → 0 < n
      → 0 < k
      → F.pos (st y) + n + k ≤ length (F.bytes (st y))
      → (st₁ st₂ : States D) × (sysread ops (iotab_of s p) (some fd) n st
          ≡ (done n, slice (F.pos (st y)) n (F.bytes (st y)), st₁))
        × (sysread ops (iotab_of (process_fork p s) (length s.iotabs)) (some fd) k st₁
            ≡ (done k, slice (F.pos (st y) + n) k (F.bytes (st y)), st₂))
  sysread-process_fork s p fd y n k st F small held ok first second room =
      let d = st y in
      let (got, ok₁, moved) = F.reads d n ok first (omega (arith, room)) in
      let d₁ = F.after_read d n in
      let st₁ = set_state y d₁ st in
      let (got₁, ok₂, moved₁) =
        F.reads d₁ k ok₁ second (omega (arith, room, moved.at, ap length moved.same)) in
      let now : st₁ y ≡ d₁ = set_state_self y d₁ st in
      let child : get_or (iotab_of (process_fork p s) (length s.iotabs)) fd none ≡ some y =
        ap (λ t. get_or t fd none) (iotab_of-process_fork p s) ∙ held in
      (
        st₁,
        set_state y (F.after_read d₁ k) st₁,
        sysread_entry (iotab_of s p) fd y n st _ d₁ small held got,
        sysread_entry _ fd y k st₁ _ (F.after_read d₁ k) small child (
            ap (λ x. ioread (ops y) x k) now
            ∙ got₁
            ∙ ap₂ (λ x l. (done k, slice x k l, F.after_read d₁ k)) moved.at moved.same),
      )
