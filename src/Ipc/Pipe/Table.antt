-- ===== src/Ipc/Pipe/Table.antt =====
-- The table of pipes: what a call does to the pipe that it names, and to the others.
use mathlib.Core.Path.{subst}
use vyro_os.Base.{
  ℕ, zero, suc, ◌+◌, ◌-◌, ◌≤◌, ◌<◌, min, ◌≡◌, ◌⊎◌, refl, ap, ◌∙◌, sym, true, false, none, some,
  List, [], ◌∷◌, ◌++◌, arith, length, take, drop, get_elem?, set, replicate, length-set,
  get_elem?-set_self, get_elem?-lt, length-replicate, ℤ, pos, negsuc, minus_one, lt→leb, Bool-cases,
  inl, inr,
}
use vyro_os.Ipc.Pipe.{
  Pipe, pipe_buf_size, max_pipes, unused, boot, pipe_at, create_from, pipe_create, pipe_write,
  pipe_read, write_loop, read_loop,
}
use vyro_os.Ipc.Pipe.Refine.{
  IsValid, contents, write_loop_lem, read_loop_lem, in_use-write_loop, in_use-read_loop,
  count_of_contents,
}

abbrev pub AllValid : List Pipe → Type 0
AllValid [] = Unit
AllValid (p ∷ ps) = IsValid p × AllValid ps

AllValid-get :
    (pipes : List Pipe) (i : ℕ) {p : Pipe} → AllValid pipes → get_elem? pipes i ≡ some p → IsValid p
AllValid-get [] i v e = cc
AllValid-get (q ∷ ps) zero {p} v e = let same : q ≡ p = cc in subst IsValid same v.0
AllValid-get (q ∷ ps) (suc i) v e = AllValid-get ps i v.1 e

AllValid-set :
    (pipes : List Pipe) (i : ℕ) (q : Pipe) → AllValid pipes → IsValid q → AllValid (set pipes i q)
AllValid-set [] i q v h = tt
AllValid-set (p ∷ ps) zero q v h = (h, v.1)
AllValid-set (p ∷ ps) (suc i) q v h = (v.0, AllValid-set ps i q v.1 h)

-- Sixteen slots, each of them a valid buffer.
pub record IsTable (pipes : List Pipe) : Type 0 where
  pub slots : length pipes ≡ max_pipes
  pub each : AllValid pipes

-- what a descriptor in use names
pub pipe_at-some :
    (pipes : List Pipe) (pid : ℤ) {i : ℕ} {p : Pipe}
    → pipe_at pipes pid ≡ some (i, p)
    → (pid ≡ pos i) × (get_elem? pipes i ≡ some p) × (p.in_use ≡ true)
unfolding pipe_at
pipe_at-some pipes (negsuc n) e = cc
pipe_at-some pipes (pos n) {i} {p} e = ground arith

-- A valid slot put into a table leaves a table.
IsTable-set :
    {pipes : List Pipe} (i : ℕ) (q : Pipe) → IsTable pipes → IsValid q → IsTable (set pipes i q)
IsTable-set {pipes} i q v h = record {
  slots = length-set pipes i q ∙ v.slots;
  each = AllValid-set pipes i q v.each h;
}

at_set :
    (pipes : List Pipe) (k : ℕ) (q : Pipe)
    → q.in_use ≡ true
    → k < length pipes
    → length pipes ≤ max_pipes
    → pipe_at (set pipes k q) (pos k) ≡ some (k, q)
unfolding pipe_at
at_set pipes k q used lt le =
    rw (lt→leb max_pipes k (omega arith), pipe_at, get_elem?-set_self pipes k q lt, used)

-- A write to a pipe in use appends what there is room for and returns how much that was; that
-- slot alone changes, and the table stays valid.
pub pipe_write_lem :
    (pipes : List Pipe) (pid : ℤ) (bs : List ℕ) {i : ℕ} {p : Pipe}
    → IsTable pipes
    → pipe_at pipes pid ≡ some (i, p)
    → let (t, r) = pipe_write pipes pid bs in
      (q : Pipe) × (pipe_at t pid ≡ some (i, q))
      × (contents q ≡ contents p ++ take (pipe_buf_size - p.count) bs)
      × (r ≡ pos (min (length bs) (pipe_buf_size - p.count)))
      × (t ≡ set pipes i q)
      × IsTable t
pipe_write_lem pipes pid bs {i} {p} v e =
    let (at, there, used) = pipe_at-some pipes pid e in
    let (keeps, holds, wrote) = write_loop_lem p bs 0 (AllValid-get pipes i v.each there) in
    let q : Pipe = (write_loop p bs 0).0 in
    unfold pipe_write in
    rw (e, pipe_write)
      (
        q,
        rw at (
            at_set pipes i q (in_use-write_loop p bs 0 ∙ used) (get_elem?-lt pipes i there)
              (omega (arith, v.slots))),
        holds,
        ap pos (omega (arith, wrote)),
        refl,
        IsTable-set i q v keeps,
      )

-- A read of a pipe in use returns its oldest bytes, at most `n`, and leaves the others in order;
-- that slot alone changes, and the table stays valid.
pub pipe_read_lem :
    (pipes : List Pipe) (pid : ℤ) (n : ℕ) {i : ℕ} {p : Pipe}
    → IsTable pipes
    → pipe_at pipes pid ≡ some (i, p)
    → let (t, r) = pipe_read pipes pid n in
      (q : Pipe) × (pipe_at t pid ≡ some (i, q))
      × (contents q ≡ drop n (contents p))
      × (r ≡ some (take n (contents p)))
      × (t ≡ set pipes i q)
      × IsTable t
pipe_read_lem pipes pid n {i} {p} v e =
    let (at, there, used) = pipe_at-some pipes pid e in
    let (keeps, out, holds) = read_loop_lem p n (AllValid-get pipes i v.each there) in
    let q : Pipe = (read_loop p n).0 in
    unfold pipe_read in
    rw (e, pipe_read)
      (
        q,
        rw at (
            at_set pipes i q (in_use-read_loop p n ∙ used) (get_elem?-lt pipes i there)
              (omega (arith, v.slots))),
        holds,
        ap some out,
        refl,
        IsTable-set i q v keeps,
      )

-- A descriptor that is out of range or not in use is refused, and nothing changes.
pub pipe_refused :
    (pipes : List Pipe) (pid : ℤ) (bs : List ℕ) (n : ℕ)
    → pipe_at pipes pid ≡ none
    → (pipe_write pipes pid bs ≡ (pipes, minus_one)) × (pipe_read pipes pid n ≡ (pipes, none))
unfolding pipe_write pipe_read
pipe_refused pipes pid bs n e = (rw (e, pipe_write), rw (e, pipe_read))

-- What `pipe_create` leaves in the slot it takes.
abbrev pub opened : Pipe → Pipe
opened p = record p { in_use = true; read_pos = 0; write_pos = 0; count = 0 }

abbrev pub AllUsed : List Pipe → Type 0
AllUsed [] = Unit
AllUsed (p ∷ ps) = (p.in_use ≡ true) × AllUsed ps

-- Slot `k` is the first that is not in use, and holds `p`.
abbrev pub FirstFree : List Pipe → ℕ → Pipe → Type 0
FirstFree [] k q = ⊥
FirstFree (p ∷ ps) zero q = (p.in_use ≡ false) × (p ≡ q)
FirstFree (p ∷ ps) (suc k) q = (p.in_use ≡ true) × FirstFree ps k q

-- The loop takes the first slot that is not in use, or finds none.
create_from_lem :
    (pipes : List Pipe) (i : ℕ)
    → (AllUsed pipes × (create_from pipes i ≡ (pipes, minus_one)))
      ⊎ ((k : ℕ) × (p : Pipe) × FirstFree pipes k p
          × (create_from pipes i ≡ (set pipes k (opened p), pos (i + k))))
unfolding create_from
create_from_lem [] i = inl (tt, refl)
create_from_lem (p ∷ ps) i = elim (Bool-cases p.in_use) [
  | inr free ↦ inr (0, p, (free, refl), ground arith)
  | inl used ↦ elim (create_from_lem ps (i + 1)) [
    | inl (all, e) ↦ inl ((used, all), ground (arith, e))
    | inr (k, q, first, e) ↦ inr (suc k, q, (used, first), ground (arith, e))
  ]
]

FirstFree-get :
    (pipes : List Pipe) (k : ℕ) {p : Pipe} → FirstFree pipes k p → get_elem? pipes k ≡ some p
FirstFree-get [] k h = absurd h
FirstFree-get (q ∷ ps) zero h = ap some h.1
FirstFree-get (q ∷ ps) (suc k) h = FirstFree-get ps k h.1

-- `pipe_create` returns -1 and changes nothing where every slot is in use; otherwise it returns
-- the first free slot, which then holds an empty pipe in use, that slot alone changes, and the
-- table stays valid.
pub pipe_create_lem :
    (pipes : List Pipe)
    → IsTable pipes
    → (AllUsed pipes × (pipe_create pipes ≡ (pipes, minus_one)))
      ⊎ ((k : ℕ) × (p q : Pipe) × FirstFree pipes k p
          × ((pipe_create pipes).1 ≡ pos k)
          × (pipe_at (pipe_create pipes).0 (pos k) ≡ some (k, q))
          × (contents q ≡ [])
          × ((pipe_create pipes).0 ≡ set pipes k q)
          × IsTable (pipe_create pipes).0)
unfolding pipe_create
pipe_create_lem pipes v = elim (create_from_lem pipes 0) [
  | inl full ↦ inl full
  | inr (k, p, first, e) ↦
      let there : get_elem? pipes k ≡ some p = FirstFree-get pipes k first in
      let valid : IsValid p = AllValid-get pipes k v.each there in
      let lt : k < length pipes = get_elem?-lt pipes k there in
      inr (
        k,
        p,
        opened p,
        first,
        ground (arith, e),
        rw e (at_set pipes k (opened p) refl lt (omega (arith, v.slots))),
        refl,
        rw e refl,
        rw e (
            IsTable-set k (opened p) v (record {
              storage = valid.storage;
              read_in = omega arith;
              count_in = omega arith;
              write_at = refl;
            })),
      )
]

-- A new pipe gives back what is written to it, in order: up to 1024 bytes are taken, and a read
-- of `n` returns the first `n` of them.
pub pipe_round_trip :
    (pipes : List Pipe) (bs : List ℕ) (n k : ℕ)
    → IsTable pipes
    → (pipe_create pipes).1 ≡ pos k
    → (pipe_read (pipe_write (pipe_create pipes).0 (pos k) bs).0 (pos k) n).1
      ≡ some (take n (take pipe_buf_size bs))
pipe_round_trip pipes bs n k v e = elim (pipe_create_lem pipes v) [
  | inl (all, failed) ↦ absurd_of (sym (ap (λ r. r.1) failed) ∙ e)
  | inr (i, p, q, first, slot, at, empty, others, table) ↦
      let same : pos i ≡ pos k = sym slot ∙ e in
      let at' : pipe_at (pipe_create pipes).0 (pos k) ≡ some (i, q) = rw (← same) at in
      let (w, at_w, holds, wrote, kept, table_w) =
        pipe_write_lem (pipe_create pipes).0 (pos k) bs table at' in
      let (r, at_r, rest, got, kept_r, table_r) =
        pipe_read_lem (pipe_write (pipe_create pipes).0 (pos k) bs).0 (pos k) n table_w at_w in
      rw (got, holds, empty, count_of_contents q empty) refl
]
  where
    absurd_of : {A : Type 0} → minus_one ≡ pos k → A
    absurd_of h = cc

AllValid-replicate : (n : ℕ) (p : Pipe) → IsValid p → AllValid (replicate n p)
AllValid-replicate zero p v = tt
AllValid-replicate (suc n) p v = (v, AllValid-replicate n p v)

unused-IsValid : IsValid unused
unfolding unused
unused-IsValid = record {
  storage = length-replicate {A = ℕ} pipe_buf_size 0;
  read_in = omega arith;
  count_in = omega arith;
  write_at = refl;
}

-- The table at boot is valid.
pub boot-IsTable : IsTable boot
unfolding boot
boot-IsTable = record {
  slots = length-replicate max_pipes unused;
  each = AllValid-replicate max_pipes unused unused-IsValid;
}
