-- ===== src/Ipc/Pipe/Tests.antt =====
-- The theorems of the pipes at concrete tables, and runs of the code.
use vyro_os.Base.{
  ℕ, ◌-◌, min, ◌≡◌, refl, inl, inr, some, none, List, [], ◌∷◌, ◌++◌, take, set, pos, negsuc,
  minus_one, arith,
}
use vyro_os.Ipc.Pipe.{
  Pipe, pipe_buf_size, unused, boot, pipe_at, pipe_create, pipe_write, pipe_read, pipe_count,
}
use vyro_os.Ipc.Pipe.Refine.{contents}
use vyro_os.Ipc.Pipe.Table.{
  IsTable, opened, boot-IsTable, pipe_write_lem, pipe_create_lem, pipe_refused,
}

abbrev hello : List ℕ
hello = 104 ∷ 105 ∷ []

-- the table after the first `pipe_create`
abbrev one_open : List Pipe
one_open = (pipe_create boot).0

first_slot : (pipe_create boot).1 ≡ pos 0
unfolding pipe_create boot unused
first_slot = refl

one_open_at : pipe_at one_open (pos 0) ≡ some (0, opened unused)
unfolding pipe_create boot unused pipe_at
one_open_at = refl

one_open_counts : pipe_count one_open ≡ 1
unfolding pipe_create boot unused pipe_count
one_open_counts = refl

one_open-IsTable : IsTable one_open
one_open-IsTable = elim (pipe_create_lem boot boot-IsTable) [
  | inl (all, e) ↦ absurd (unfold boot unused in ground arith)
  | inr (k, p, q, first, slot, at, empty, same, table) ↦ table
]

pipe_write_lem_example :
    let (t, r) = pipe_write one_open (pos 0) hello in
    (q : Pipe) × (pipe_at t (pos 0) ≡ some (0, q))
    × (contents q ≡ contents (opened unused) ++ take (pipe_buf_size - (opened unused).count) hello)
    × (r ≡ pos (min 2 (pipe_buf_size - (opened unused).count)))
    × (t ≡ set one_open 0 q)
    × IsTable t
pipe_write_lem_example = pipe_write_lem one_open (pos 0) hello one_open-IsTable one_open_at

pipe_refused_example :
    (pipe_write boot (negsuc 0) hello ≡ (boot, minus_one))
    × (pipe_read boot (negsuc 0) 4 ≡ (boot, none))
unfolding pipe_at
pipe_refused_example = pipe_refused boot (negsuc 0) hello 4 refl
