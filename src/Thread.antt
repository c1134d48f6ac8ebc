-- ===== src/Thread.antt =====
-- The thread lists of src/kern/thread.c, as linked as they are there: `next` is the `list_next`
-- member of every thread, threads are named by their ids, and `none` is a null pointer. A list
-- operation that fails an assertion (the kernel panics) is `none`.
pub mod Chains
pub mod Lists
use operating_systems_final.Prelude.{ℕ, Bool, true, false, Option, none, some, ◌==◌, if◌then◌else◌}

abbrev pub Next : Type 0
Next = ℕ → Option ℕ

-- `struct thread_list`
pub record ThreadList : Type 0 where
  pub head : Option ℕ
  pub tail : Option ℕ

abbrev pub empty_list : ThreadList
empty_list = record { head = none; tail = none }

-- `t->list_next = v`
abbrev pub link : Next → ℕ → Option ℕ → Next
link next t v x = if x == t then v else next x

unfoldable pub tlclear : ThreadList → ThreadList
tlclear l = empty_list

unfoldable pub tlempty : ThreadList → Bool
tlempty l = elim l.head [ none ↦ true | some t ↦ false ]

-- `tlinsert` of a thread that is not null.
unfoldable pub tlinsert : ℕ → ThreadList → Next → Option (ThreadList × Next)
tlinsert t l next =
    let next' = link next t none in
    elim l.tail [
      | some e ↦ elim l.head [
        | none ↦ none
        | some h ↦ some (record { head = some h; tail = some t }, link next' e (some t))
      ]
      | none ↦ elim l.head [
        | none ↦ some (record { head = some t; tail = some t }, next')
        | some h ↦ none
      ]
    ]

-- `tlremove` of the first thread `t`, whose link is the second argument.
unfoldable pub unlink_first : ℕ → Option ℕ → ThreadList → Next → Option ℕ × ThreadList × Next
unlink_first t none l next = (some t, empty_list, link next t none)
unlink_first t (some h) l next =
    (some t, record { head = some h; tail = l.tail }, link (link next t none) t none)

unfoldable pub tlremove : ThreadList → Next → Option ℕ × ThreadList × Next
unfolding unlink_first
tlremove l next = elim l.head [ none ↦ (none, l, next) | some t ↦ unlink_first t (next t) l next ]

-- `tlappend`: the two lists afterwards.
unfoldable pub tlappend : ThreadList → ThreadList → Next → Option (ThreadList × ThreadList × Next)
tlappend l₀ l₁ next = elim l₀.head [
  | some h₀ ↦ elim l₀.tail [
    | none ↦ none
    | some e₀ ↦ elim l₁.head [
      | none ↦ some (l₀, empty_list, next)
      | some h₁ ↦ elim l₁.tail [
        | none ↦ none
        | some e₁ ↦
            some (record { head = some h₀; tail = some e₁ }, empty_list, link next e₀ (some h₁))
      ]
    ]
  ]
  | none ↦ elim l₀.tail [
    | some e₀ ↦ none
    | none ↦ some (record { head = l₁.head; tail = l₁.tail }, empty_list, next)
  ]
]
