-- ===== src/Pipe/Refine.antt =====
-- A valid pipe behaves as the bounded queue of the bytes that it holds.
use os_lab_course_project.Prelude.{
  ℕ, zero, suc, ◌+◌, ◌-◌, ◌%◌, ◌≡◌, refl, ◌≢◌, ap, List, [], ◌∷◌, ◌++◌, length, update, arith,
  sub32, add32, ◌==◌, Bool, true, false, Bool-cases, inl, inr,
}
use mathlib.Core.List.{append-nil, append_assoc}
use os_lab_course_project.Pipe.{
  Pipe, pipesize, is_full, put, write_from, pipewrite, read_from, piperead, pipeclose, handle, run,
  pipealloc,
}
use os_lab_course_project.Pipe.Fifo
use os_lab_course_project.Pipe.Fifo.{
  Fifo, append, split, take_out, close_end, serve, WriteOut, wrote, broken, asleep, ReadOut, got,
  killed, waiting, Op, Reply,
}
use os_lab_course_project.Pipe.Window.{
  window, len, IsValid, contents, length-window, window_of_ne_zero, window-update,
}

is_full-len : (p : Pipe) → IsValid p → is_full p ≡ (length (contents p).queue == pipesize)
is_full-len p v = ground (arith, length-window p.bytes p.nread (len p))

put_lem :
    (p : Pipe) (x : ℕ)
    → IsValid p
    → is_full p ≡ false
    → IsValid (put p x)
      × (contents (put p x) ≡ record (contents p) { queue = (contents p).queue ++ x ∷ [] })
unfolding put
put_lem p x v e = (
  ground arith,
  ground (
    arith,
    window-update p.bytes x (len p) p.nread (p.nwrite % pipesize),
    ap (window (update p.bytes (p.nwrite % pipesize) x) p.nread)
        {x = sub32 (add32 p.nwrite 1) p.nread} {y = suc (len p)},
  ),
)

write_from_refines :
    (src : List ℕ) (p : Pipe) (dead : Bool) (i : ℕ)
    → IsValid p
    → let (o, p') = write_from p dead src i in
      ((o, contents p') ≡ append pipesize (contents p) dead src i) × IsValid p'
unfolding write_from append
write_from_refines [] p dead i v = (refl, v)
write_from_refines (x ∷ xs) p dead i v = elim (Bool-cases (is_full p)) [
  | inl full ↦ ground (arith, is_full-len p v)
  | inr room ↦
      let (v', e) = put_lem p x v room in
      ground (arith, is_full-len p v, write_from_refines xs (put p x) dead (i + 1) v')
]

abbrev after_read : Pipe → Pipe
after_read p = record p { nread = add32 p.nread 1 }

queue_empty : (p : Pipe) → IsValid p → p.nread ≡ p.nwrite → (contents p).queue ≡ []
queue_empty p v e = ap (window p.bytes p.nread) {x = len p} {y = 0} (omega arith)

queue_cons :
    (p : Pipe)
    → IsValid p
    → p.nread ≢ p.nwrite
    → IsValid (after_read p)
      × ((contents p).queue ≡ p.bytes (p.nread % pipesize) ∷ (contents (after_read p)).queue)
queue_cons p v ne = (
  omega arith,
  ground (
    arith,
    window_of_ne_zero p.bytes p.nread (len p),
    ap (window p.bytes (add32 p.nread 1)) {x = len p - 1} {y = len (after_read p)},
  ),
)

read_from_refines :
    (n : ℕ) (p : Pipe) (acc : List ℕ)
    → IsValid p
    → let (o, p') = read_from p n acc in
      (o ≡ got (acc ++ (split (contents p).queue n).0))
      × (contents p' ≡ record (contents p) { queue = (split (contents p).queue n).1 })
      × IsValid p'
unfolding read_from split
read_from_refines zero p acc v = (ground (arith, append-nil acc), refl, v)
read_from_refines (suc n) p acc v = elim (Bool-cases (p.nread == p.nwrite)) [
  | inl e ↦
      rw (e, queue_empty p v (ground arith))
        (ground (arith, append-nil acc), ground (arith, queue_empty p v), v)
  | inr ne ↦
      let (v', q) = queue_cons p v (ground arith) in
      let b = p.bytes (p.nread % pipesize) in
      rw (ne, q)
        (ground (
          arith,
          read_from_refines n (after_read p) (acc ++ b ∷ []) v',
          append_assoc acc (b ∷ []) (split (contents (after_read p)).queue n).0,
        ))
]

piperead_refines :
    (p : Pipe) (dead : Bool) (n : ℕ)
    → IsValid p
    → let (o, p') = piperead p dead n in
      ((o, contents p') ≡ take_out (contents p) dead n) × IsValid p'
unfolding piperead take_out
piperead_refines p dead n v =
    ground (arith, read_from_refines n p [] v, length-window p.bytes p.nread (len p))

pipeclose_refines :
    (p : Pipe) (w : Bool)
    → IsValid p
    → let (p', freed) = pipeclose p w in
      ((contents p', freed) ≡ close_end (contents p) w) × IsValid p'
unfolding pipeclose close_end
pipeclose_refines p w v = ground arith

-- One call on a valid pipe replies as the queue does, leaves the pipe holding what the queue holds,
-- and keeps it valid.
pub handle_refines :
    (p : Pipe) (op : Op)
    → IsValid p
    → let (o, p') = handle p op in ((o, contents p') ≡ serve pipesize (contents p) op) × IsValid p'
unfolding handle pipewrite serve
handle_refines p (Op.write dead src) v = ground (arith, write_from_refines src p dead 0 v)
handle_refines p (Op.read dead n) v = ground (arith, piperead_refines p dead n v)
handle_refines p (Op.close w) v = ground (arith, pipeclose_refines p w v)

-- No sequence of writes, reads and closes, by any processes, tells a valid pipe from the bounded
-- queue of the bytes that it holds, also when the counters wrap.
pub run_refines :
    (ops : List Op) (p : Pipe) → IsValid p → run p ops ≡ Fifo.run pipesize (contents p) ops
unfolding run Fifo.run
run_refines [] p v = refl
run_refines (op ∷ ops) p v =
    let (e, v') = handle_refines p op v in ground (arith, run_refines ops (handle p op).1 v')

-- A new pipe is valid, open at both ends, and holds no byte.
pub pipealloc_lem :
    (junk : ℕ → ℕ)
    → IsValid (pipealloc junk)
      × (contents (pipealloc junk) ≡ record { queue = []; readopen = true; writeopen = true })
unfolding pipealloc
pipealloc_lem junk = (omega arith, refl)
