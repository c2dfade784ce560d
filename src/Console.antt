-- ===== src/Console.antt =====
-- xv6/console.c: the input buffer between the keyboard and the readers, and what is echoed. `cons.lock`
-- makes `consoleintr` one step, and `consoleread` up to its `sleep`.
pub mod Line
pub mod Buffer
pub mod Refine
mod Tests
use os_lab_course_project.Prelude.{
  ℕ, zero, suc, ◌+◌, ◌%◌, Bool, true, false, not, ◌&&◌, ◌||◌, ◌==◌, ltb, if◌then◌else◌, update,
  List, [], ◌∷◌, ◌++◌, add32, sub32,
}
use os_lab_course_project.Console.Line.{
  Effect, no_effect, backspace, kill_line, list_processes, delete, erase, newline, carriage_return,
  end_of_file, input_buf, is_empty, ReadOut, got, killed, asleep, Op, Reply, typed_reply,
  read_reply, after,
}

-- The struct `input`; the indices are of type uint, and wrap.
pub record Input : Type 0 where
  pub buf : ℕ → ℕ
  pub r : ℕ
  pub w : ℕ
  pub e : ℕ

-- `while(input.e != input.w && input.buf[(input.e-1) % INPUT_BUF] != '\n')`, with as many rounds at
-- most as the fuel says, and the number of rounds.
unfoldable pub kill_back : ℕ → Input → ℕ × Input
kill_back zero i = (0, i)
kill_back (suc fuel) i =
    let (n, i') = kill_back fuel (record i { e = sub32 i.e 1 }) in
    if not (i.e == i.w) && not (i.buf (sub32 i.e 1 % input_buf) == newline)
    then (n + 1, i')
    else (0, i)

abbrev pub backspaces : ℕ → List ℕ
backspaces zero = []
backspaces (suc n) = backspace ∷ backspaces n

-- The default case. A byte is stored, so a key is taken modulo 256 there.
unfoldable pub put_key : Input → ℕ → Effect × Input
put_key i key =
    if not (key == 0) && ltb (sub32 i.e i.r) input_buf
    then (let c = if key == carriage_return then newline else key in
        let i' = record i { buf = update i.buf (i.e % input_buf) (c % 256); e = add32 i.e 1 } in
        let full = c == newline || c == end_of_file || i'.e == add32 i'.r input_buf in
        (
          record { echo = c ∷ []; woken = full; dump = false },
          if full then record i' { w = i'.e } else i',
        ))
    else (no_effect, i)

-- The body of the loop of `consoleintr` for one key.
unfoldable pub on_key : Input → ℕ → Effect × Input
unfolding kill_back put_key
on_key i key =
    if key == list_processes
    then (record no_effect { dump = true }, i)
    else if key == kill_line
    then (let (n, i') = kill_back (sub32 i.e i.w) i in
        (record no_effect { echo = backspaces n }, i'))
    else if key == delete || key == erase
    then (if i.e == i.w
        then (no_effect, i)
        else (record no_effect { echo = backspace ∷ [] }, record i { e = sub32 i.e 1 }))
    else put_key i key

-- The keys that `getc` gives before it returns -1.
unfoldable pub consoleintr : Input → List ℕ → Effect × Input
unfolding on_key
consoleintr i [] = (no_effect, i)
consoleintr i (key ∷ keys) =
    let (f, i') = on_key i key in let (g, i'') = consoleintr i' keys in (after f g, i'')

-- `consoleread` with `n` bytes to go and those copied so far; after the wakeup it goes on from what
-- `asleep` holds.
unfoldable pub consoleread : Input → Bool → ℕ → List ℕ → ReadOut × Input
consoleread i dead zero acc = (got acc, i)
consoleread i dead (suc n) acc =
    let c = i.buf (i.r % input_buf) in
    let i' = record i { r = add32 i.r 1 } in
    let rest = consoleread i' dead n (acc ++ c ∷ []) in
    if i.r == i.w
    then (if dead then (killed, i) else (asleep acc, i))
    else if c == end_of_file
    then (got acc, if is_empty acc then i' else record i' { r = sub32 i'.r 1 })
    else if c == newline
    then (got (acc ++ c ∷ []), i')
    else rest

unfoldable pub handle : Input → Op → Reply × Input
unfolding consoleintr consoleread
handle i (Op.keys ks) = let (f, i') = consoleintr i ks in (typed_reply f, i')
handle i (Op.read dead n acc) = let (o, i') = consoleread i dead n acc in (read_reply o, i')

unfoldable pub run : Input → List Op → List Reply
unfolding handle
run i [] = []
run i (op ∷ ops) = let (o, i') = handle i op in o ∷ run i' ops
