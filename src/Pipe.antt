-- ===== src/Pipe.antt =====
-- xv6/pipe.c: the ring of PIPESIZE bytes between two processes.
-- A function is one critical section under `p->lock`: where the code sleeps it returns `asleep`, and
-- after the wakeup the loop goes on from there, on the pipe as the other side has left it.
pub mod Fifo
pub mod Window
pub mod Refine
mod Tests
use os_lab_course_project.Prelude.{
  ℕ, zero, suc, ◌+◌, ◌%◌, Bool, true, false, not, ◌&&◌, ◌||◌, ◌==◌, if◌then◌else◌, update, List, [],
  ◌∷◌, ◌++◌, add32,
}
use os_lab_course_project.Pipe.Fifo.{
  WriteOut, wrote, broken, asleep, ReadOut, got, killed, waiting, Op, Reply, wrote_reply,
  read_reply, close_reply,
}

abbrev pub pipesize : ℕ
pipesize = 512

-- `struct pipe`, less its lock; the counters are of type uint, and wrap.
pub record Pipe : Type 0 where
  pub bytes : ℕ → ℕ
  pub nread : ℕ
  pub nwrite : ℕ
  pub readopen : Bool
  pub writeopen : Bool

-- What `pipealloc` puts into the page that it gets, whose bytes are arbitrary.
pub pipealloc : (ℕ → ℕ) → Pipe
pipealloc junk = record { bytes = junk; nread = 0; nwrite = 0; readopen = true; writeopen = true }

-- `pipeclose`: the Boolean says whether the page is freed.
pub pipeclose : Pipe → Bool → Pipe × Bool
pipeclose p writable =
    let p' = if writable then record p { writeopen = false } else record p { readopen = false } in
    (p', not p'.readopen && not p'.writeopen)

abbrev pub is_full : Pipe → Bool
is_full p = p.nwrite == add32 p.nread pipesize

-- `p->data[p->nwrite++ % PIPESIZE] = x`
pub put : Pipe → ℕ → Pipe
put p x = record p { bytes = update p.bytes (p.nwrite % pipesize) x; nwrite = add32 p.nwrite 1 }

-- The loop of `pipewrite` at `i`, with `addr[i..n)`; the Boolean is `myproc()->killed`.
pub write_from : Pipe → Bool → List ℕ → ℕ → WriteOut × Pipe
unfolding put
write_from p dead [] i = (wrote i, p)
write_from p dead (x ∷ xs) i =
    let next = write_from (put p x) dead xs (i + 1) in
    if is_full p then (if not p.readopen || dead then (broken, p) else (asleep i, p)) else next

pub pipewrite : Pipe → Bool → List ℕ → WriteOut × Pipe
unfolding write_from
pipewrite p dead src = write_from p dead src 0

-- The loop that copies, with `n` rounds left and the bytes copied so far.
pub read_from : Pipe → ℕ → List ℕ → ReadOut × Pipe
read_from p zero acc = (got acc, p)
read_from p (suc n) acc =
    let next =
      read_from (record p { nread = add32 p.nread 1 }) n
        (acc ++ p.bytes (p.nread % pipesize) ∷ []) in
    if p.nread == p.nwrite then (got acc, p) else next

pub piperead : Pipe → Bool → ℕ → ReadOut × Pipe
unfolding read_from
piperead p dead n =
    if p.nread == p.nwrite && p.writeopen
    then (if dead then (killed, p) else (waiting, p))
    else read_from p n []

-- The calls of all processes on one pipe, in the order in which they get its lock.
pub handle : Pipe → Op → Reply × Pipe
unfolding pipewrite piperead pipeclose
handle p (Op.write dead src) = let (o, p') = pipewrite p dead src in (wrote_reply o, p')
handle p (Op.read dead n) = let (o, p') = piperead p dead n in (read_reply o, p')
handle p (Op.close writable) = let (p', freed) = pipeclose p writable in (close_reply freed, p')

pub run : Pipe → List Op → List Reply
unfolding handle
run p [] = []
run p (op ∷ ops) = let (o, p') = handle p op in o ∷ run p' ops
