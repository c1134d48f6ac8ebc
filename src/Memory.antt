-- ===== src/Memory.antt =====
-- Physical pages and three-level page tables, src/kern/memory.c. A page is named by its page number.
-- Of its bytes only the 512 page table entries that they make are modelled; the list of free pages,
-- linked through the pages in the source, is a list. `none` is a panic.
pub mod Map
pub mod Pages
pub mod Validate
use operating_systems_final.Prelude.{
  ℕ, zero, suc, ◌+◌, ◌-◌, ◌*◌, ◌/◌, ◌%◌, ◌^◌, Bool, true, false, not, ◌&&◌, ◌||◌, Option, none,
  some, List, [], ◌∷◌, ltb, ◌==◌, if◌then◌else◌, add64, sub64,
}
use operating_systems_final.Errno.{Reply, done, fail, eaccess, einval}

-- The eight bits of `pte.flags`.
pub record Flags : Type 0 where
  pub v : Bool
  pub r : Bool
  pub w : Bool
  pub x : Bool
  pub u : Bool
  pub g : Bool
  pub a : Bool
  pub d : Bool

-- `struct pte`, as far as it is used.
pub record Pte : Type 0 where
  pub flags : Flags
  pub ppn : ℕ

pub record Memory : Type 0 where
  pub tables : ℕ → ℕ → Pte
  pub free_list : List ℕ

abbrev pub page_size : ℕ
page_size = 4096

abbrev pub no_flags : Flags
no_flags = record {
  v = false;
  r = false;
  w = false;
  x = false;
  u = false;
  g = false;
  a = false;
  d = false;
}

abbrev pub null_pte : Pte
null_pte = record { flags = no_flags; ppn = 0 }

-- A page number in the 44 bits of `pte.ppn`.
abbrev pub leaf_pte : ℕ → Flags → Pte
leaf_pte page f = record { flags = record f { a = true; d = true; v = true }; ppn = page % 2 ^ 44 }

abbrev pub ptab_pte : ℕ → Pte
ptab_pte page = record { flags = record no_flags { v = true }; ppn = page % 2 ^ 44 }

-- VPN2, VPN1 and VPN0.
abbrev pub vpn2 : ℕ → ℕ
vpn2 vma = (vma / 2 ^ 30) % 512

abbrev pub vpn1 : ℕ → ℕ
vpn1 vma = (vma / 2 ^ 21) % 512

abbrev pub vpn0 : ℕ → ℕ
vpn0 vma = (vma / 2 ^ 12) % 512

-- `(intptr_t)vma >> 38` is all zeros or all ones.
unfoldable pub wellformed_vma : ℕ → Bool
wellformed_vma vma =
    let bits = if ltb vma (2 ^ 63) then vma / 2 ^ 38 else vma / 2 ^ 38 + (2 ^ 64 - 2 ^ 26) in
    bits == 0 || (add64 bits 1 == 0)

abbrev pub aligned_addr : ℕ → ℕ → Bool
aligned_addr vma blksz = vma % blksz == 0

abbrev pub round_up_addr : ℕ → ℕ → ℕ
round_up_addr addr blksz = sub64 (add64 addr blksz) 1 / blksz * blksz

abbrev pub round_down_addr : ℕ → ℕ → ℕ
round_down_addr addr blksz = addr / blksz * blksz

-- `pt[i] = e` for the table in a page.
unfoldable pub set_entry : Memory → ℕ → ℕ → Pte → Memory
set_entry m pt i e = record m { tables = λ p j. if p == pt && j == i then e else m.tables p j }

unfoldable pub memory_alloc_page : Memory → Option (ℕ × Memory)
memory_alloc_page m = elim m.free_list [
  | [] ↦ none
  | p ∷ ps ↦
      some (p, record { tables = λ q j. if q == p then null_pte else m.tables q j; free_list = ps })
]

-- The link that the page keeps overwrites its first entry, which nothing reads before it is zeroed.
unfoldable pub memory_free_page : ℕ → Memory → Memory
memory_free_page p m = record m { free_list = p ∷ m.free_list }

unfoldable pub verify_flags : Flags → Reply
verify_flags f = if not f.v then fail eaccess else if not f.r && f.w then fail eaccess else done 0

abbrev pub is_ok : Reply → Bool
is_ok (done n) = n == 0
is_ok (fail e) = false

-- Whether an entry points to a table of the next level.
unfoldable pub points_on : Flags → Bool
points_on f = not (f.r || (f.w || f.x)) && is_ok (verify_flags f)

-- One level of `walk_pt`: the table that `pt[i]` points to, a new one if there is none and `create`
-- is set, or `none`, a null pointer.
unfoldable pub descend : Bool → ℕ → ℕ → Memory → Option (Option ℕ × Memory)
descend create pt i m =
    let e = m.tables pt i in
    if points_on e.flags
    then some (some e.ppn, m)
    else if not create
    then some (none, m)
    else (elim (memory_alloc_page m) [
      | none ↦ none
      | some (p, m') ↦ some (some (p % 2 ^ 44), set_entry m' pt i (ptab_pte p))
    ])

-- The last level: the entry itself, mapped to a new readable page if it is not valid.
unfoldable pub find_leaf : Bool → ℕ → ℕ → Memory → Option (Option (ℕ × ℕ) × Memory)
find_leaf create pt i m =
    if is_ok (verify_flags (m.tables pt i).flags)
    then some (some (pt, i), m)
    else if not create
    then some (none, m)
    else (elim (memory_alloc_page m) [
      | none ↦ none
      | some (p, m') ↦
          some (some (pt, i), set_entry m' pt i (leaf_pte p (record no_flags { r = true })))
    ])

-- A step of `walk_pt` behind a level that may have ended it.
unfoldable pub walk_on :
    (ℕ → Memory → Option (Option (ℕ × ℕ) × Memory))
    → Option (Option ℕ × Memory)
    → Option (Option (ℕ × ℕ) × Memory)
walk_on next none = none
walk_on next (some (none, m)) = some (none, m)
walk_on next (some (some pt, m)) = next pt m

-- The place of the entry for `vma`, as the page of its table and its index there.
unfoldable pub walk_pt : Bool → ℕ → ℕ → Memory → Option (Option (ℕ × ℕ) × Memory)
walk_pt create root vma m =
    walk_on
      (λ pt₁ m₁.
        walk_on (λ pt₀ m₀. find_leaf create pt₀ (vpn0 vma) m₀) (descend create pt₁ (vpn1 vma) m₁))
      (descend create root (vpn2 vma) m)

-- `(flags & wanted) == wanted`
abbrev pub covers : Flags → Flags → Bool
covers f want =
    (f.v || not want.v)
    && ((f.r || not want.r)
        && ((f.w || not want.w)
            && ((f.x || not want.x)
                && ((f.u || not want.u)
                    && ((f.g || not want.g) && ((f.a || not want.a) && (f.d || not want.d)))))))

-- The test that a round of the two validation loops makes of an address.
abbrev pub entry_ok : Flags → Memory → Option (Option (ℕ × ℕ) × Memory) → Bool
entry_ok want m none = false
entry_ok want m (some (none, m')) = false
entry_ok want m (some (some (pt, i), m')) =
    let f = (m.tables pt i).flags in is_ok (verify_flags f) && covers f want

unfoldable pub page_ok : ℕ → Flags → Memory → ℕ → Bool
page_ok root want m addr = entry_ok want m (walk_pt false root addr m)

unfoldable pub validate_loop : ℕ → ℕ → Flags → Memory → ℕ → ℕ → Option Bool
validate_loop zero root want m addr end = none
validate_loop (suc k) root want m addr end =
    let rest = validate_loop k root want m (add64 addr page_size) end in
    if ltb addr end then (if page_ok root want m addr then rest else some false) else some true

-- `memory_validate_vptr_len` in the space with the root table `root`, on fuel.
unfoldable pub memory_validate_vptr_len : ℕ → ℕ → Memory → ℕ → ℕ → Flags → Option Bool
memory_validate_vptr_len k root m vp len want = validate_loop k root want m vp (add64 vp len)

unfoldable pub unmap_user_page : ℕ → ℕ → Memory → Option (Reply × Memory)
unmap_user_page root vma m = elim (walk_pt false root vma m) [
  | none ↦ none
  | some (none, m') ↦ some (fail einval, m')
  | some (some (pt, i), m') ↦
      let e = m'.tables pt i in
      if not e.flags.u
      then some (fail eaccess, m')
      else some (done 0, set_entry (memory_free_page e.ppn m') pt i null_pte)
]
