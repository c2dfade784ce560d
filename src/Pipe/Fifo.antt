-- ===== src/Pipe/Fifo.antt =====
-- What a pipe promises: a queue of at most PIPESIZE bytes, oldest first.
use os_lab_course_project.Prelude.{
  ℕ, zero, suc, ◌+◌, Bool, false, not, ◌&&◌, ◌||◌, ◌==◌, if◌then◌else◌, List, [], ◌∷◌, ◌++◌, length,
}

-- How a call leaves its critical section: with its count, with -1, or asleep after `i` bytes.
pub data WriteOut : Type 0 where
  wrote : ℕ → WriteOut
  broken : WriteOut
  asleep : ℕ → WriteOut

-- With the bytes that it copied, with -1, or asleep.
pub data ReadOut : Type 0 where
  got : List ℕ → ReadOut
  killed : ReadOut
  waiting : ReadOut

pub data Op : Type 0 where
  write : (dead : Bool) → List ℕ → Op
  read : (dead : Bool) → ℕ → Op
  close : (writable : Bool) → Op

pub data Reply : Type 0 where
  wrote_reply : WriteOut → Reply
  read_reply : ReadOut → Reply
  close_reply : (freed : Bool) → Reply

pub record Fifo : Type 0 where
  pub queue : List ℕ
  pub readopen : Bool
  pub writeopen : Bool

module _ (cap : ℕ) where
  unfoldable pub append : Fifo → Bool → List ℕ → ℕ → WriteOut × Fifo
  append q dead [] i = (wrote i, q)
  append q dead (x ∷ xs) i =
      if length q.queue == cap
      then (if not q.readopen || dead then (broken, q) else (asleep i, q))
      else append (record q { queue = q.queue ++ x ∷ [] }) dead xs (i + 1)

unfoldable pub split : List ℕ → ℕ → List ℕ × List ℕ
split q zero = ([], q)
split [] (suc n) = ([], [])
split (x ∷ q) (suc n) = let (a, b) = split q n in (x ∷ a, b)

unfoldable pub take_out : Fifo → Bool → ℕ → ReadOut × Fifo
take_out q dead n =
    if length q.queue == 0 && q.writeopen
    then (if dead then (killed, q) else (waiting, q))
    else (got (split q.queue n).0, record q { queue = (split q.queue n).1 })

unfoldable pub close_end : Fifo → Bool → Fifo × Bool
close_end q writable =
    let q' = if writable then record q { writeopen = false } else record q { readopen = false } in
    (q', not q'.readopen && not q'.writeopen)

-- The calls of all processes, in the order in which they get the lock.
unfoldable pub serve : ℕ → Fifo → Op → Reply × Fifo
unfolding append take_out close_end
serve cap q (write dead xs) = let (o, q') = append cap q dead xs 0 in (wrote_reply o, q')
serve cap q (read dead n) = let (o, q') = take_out q dead n in (read_reply o, q')
serve cap q (close w) = let (q', freed) = close_end q w in (close_reply freed, q')

unfoldable pub run : ℕ → Fifo → List Op → List Reply
unfolding serve
run cap q [] = []
run cap q (op ∷ ops) = let (o, q') = serve cap q op in o ∷ run cap q' ops
