-- ===== src/Ipc/Pipe.antt =====
-- Pipes of kernel/ipc.c: sixteen circular buffers of 1024 bytes in a static table.
pub mod Refine
pub mod Table
mod Tests
use vyro_os.Base.{
  ℕ, zero, suc, ◌+◌, ◌-◌, ◌%◌, Bool, true, false, not, Option, none, some, List, [], ◌∷◌, ltb, leb,
  if◌then◌else◌, get_or, get_elem?, set, replicate, ℤ, pos, negsuc, minus_one,
}

-- `PIPE_BUF_SIZE` and `MAX_PIPES`
abbrev pub pipe_buf_size : ℕ
pipe_buf_size = 1024

abbrev pub max_pipes : ℕ
max_pipes = 16

-- `pipe_t`
pub record Pipe : Type 0 where
  pub in_use : Bool
  pub buf : List ℕ
  pub read_pos : ℕ
  pub write_pos : ℕ
  pub count : ℕ

-- `static pipe_t pipes[MAX_PIPES]`, zero at boot
unfoldable pub unused : Pipe
unused = record {
  in_use = false;
  buf = replicate pipe_buf_size 0;
  read_pos = 0;
  write_pos = 0;
  count = 0;
}

unfoldable pub boot : List Pipe
unfolding unused
boot = replicate max_pipes unused

-- one round of the loop of `pipe_write`
pub push_byte : Pipe → ℕ → Pipe
push_byte p b = record p {
  buf = set p.buf p.write_pos b;
  write_pos = (p.write_pos + 1) % pipe_buf_size;
  count = p.count + 1;
}

-- one round of the loop of `pipe_read`
pub pop_byte : Pipe → Pipe
pop_byte p = record p { read_pos = (p.read_pos + 1) % pipe_buf_size; count = p.count - 1 }

-- `while (written < n && p->count < PIPE_BUF_SIZE)`, over the bytes `data[written..n)`
pub write_loop : Pipe → List ℕ → ℕ → Pipe × ℕ
unfolding push_byte
write_loop p [] written = (p, written)
write_loop p (b ∷ bs) written = elim (ltb p.count pipe_buf_size) [
  | true ↦ write_loop (push_byte p b) bs (written + 1)
  | false ↦ (p, written)
]

-- `while (got < n && p->count > 0)`, over the rounds `n - got` left; the bytes are those put in `out`
pub read_loop : Pipe → ℕ → Pipe × List ℕ
unfolding pop_byte
read_loop p zero = (p, [])
read_loop p (suc n) = elim (ltb 0 p.count) [
  | true ↦ let (q, out) = read_loop (pop_byte p) n in (q, get_or p.buf p.read_pos 0 ∷ out)
  | false ↦ (p, [])
]

-- `&pipes[pid]`, or none where `pid < 0 || pid >= MAX_PIPES || !pipes[pid].in_use`
pub pipe_at : List Pipe → ℤ → Option (ℕ × Pipe)
pipe_at pipes (negsuc n) = none
pipe_at pipes (pos n) =
    if leb max_pipes n
    then none
    else elim (get_elem? pipes n) [ none ↦ none | some p ↦ if p.in_use then some (n, p) else none ]

-- The loop of `pipe_create` over the slots from `i` on.
create_from : List Pipe → ℕ → List Pipe × ℤ
create_from [] i = ([], minus_one)
create_from (p ∷ ps) i = elim p.in_use [
  | true ↦ let (qs, r) = create_from ps (i + 1) in (p ∷ qs, r)
  | false ↦ (record p { in_use = true; read_pos = 0; write_pos = 0; count = 0 } ∷ ps, pos i)
]

pub pipe_create : List Pipe → List Pipe × ℤ
unfolding create_from
pipe_create pipes = create_from pipes 0

-- `pipe_write`; `data` holds the `n` bytes given
pub pipe_write : List Pipe → ℤ → List ℕ → List Pipe × ℤ
unfolding pipe_at write_loop
pipe_write pipes pid data' = elim (pipe_at pipes pid) [
  | none ↦ (pipes, minus_one)
  | some (i, p) ↦ let (q, written) = write_loop p data' 0 in (set pipes i q, pos written)
]

-- `pipe_read`; the list is what it puts in `out`, whose length it returns
pub pipe_read : List Pipe → ℤ → ℕ → List Pipe × Option (List ℕ)
unfolding pipe_at read_loop
pipe_read pipes pid n = elim (pipe_at pipes pid) [
  | none ↦ (pipes, none)
  | some (i, p) ↦ let (q, out) = read_loop p n in (set pipes i q, some out)
]

-- `pipe_count`
pub pipe_count : List Pipe → ℕ
pipe_count [] = 0
pipe_count (p ∷ ps) = if p.in_use then suc (pipe_count ps) else pipe_count ps
