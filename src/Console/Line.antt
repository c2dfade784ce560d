-- ===== src/Console/Line.antt =====
-- What the console promises: bytes that are ready to be read, oldest first, and a line that is edited.
use os_lab_course_project.Prelude.{
  ℕ, zero, suc, ◌+◌, Bool, true, false, not, ◌&&◌, ◌||◌, ◌==◌, ltb, if◌then◌else◌, List, [], ◌∷◌,
  ◌++◌, length,
}

abbrev pub input_buf : ℕ
input_buf = 128

-- `C('P')`, `C('U')`, `C('H')`, '\x7f', '\n', '\r', `C('D')`, and what `consputc` takes for BACKSPACE.
abbrev pub list_processes : ℕ
list_processes = 16

abbrev pub kill_line : ℕ
kill_line = 21

abbrev pub delete : ℕ
delete = 8

abbrev pub erase : ℕ
erase = 127

abbrev pub newline : ℕ
newline = 10

abbrev pub carriage_return : ℕ
carriage_return = 13

abbrev pub end_of_file : ℕ
end_of_file = 4

abbrev pub backspace : ℕ
backspace = 0x100

-- What is echoed, whether the readers are woken, and whether the processes are listed.
pub record Effect : Type 0 where
  pub echo : List ℕ
  pub woken : Bool
  pub dump : Bool

abbrev pub no_effect : Effect
no_effect = record { echo = []; woken = false; dump = false }

abbrev pub after : Effect → Effect → Effect
after f g = record { echo = f.echo ++ g.echo; woken = f.woken || g.woken; dump = f.dump || g.dump }

-- A read ends with bytes, with -1, or is asleep with those that it has.
pub data ReadOut : Type 0 where
  got : List ℕ → ReadOut
  killed : ReadOut
  asleep : List ℕ → ReadOut

pub data Op : Type 0 where
  keys : List ℕ → Op
  read : (dead : Bool) → ℕ → (copied : List ℕ) → Op

pub data Reply : Type 0 where
  typed_reply : Effect → Reply
  read_reply : ReadOut → Reply

-- `line` has the last key first.
pub record Line : Type 0 where
  pub ready : List ℕ
  pub line : List ℕ

abbrev pub is_empty : List ℕ → Bool
is_empty [] = true
is_empty (x ∷ xs) = false

abbrev pub turned : List ℕ → List ℕ → List ℕ
turned [] acc = acc
turned (x ∷ xs) acc = turned xs (x ∷ acc)

-- The line is finished.
abbrev pub submit : Line → Line
submit s = record { ready = s.ready ++ turned s.line []; line = [] }

abbrev pub erased : List ℕ → List ℕ
erased [] = []
erased (x ∷ xs) = backspace ∷ erased xs

unfoldable pub insert : Line → ℕ → Effect × Line
insert s key =
    if not (key == 0) && ltb (length s.ready + length s.line) input_buf
    then (let c = if key == carriage_return then newline else key in
        let s' = record s { line = c ∷ s.line } in
        let full =
          c == newline || c == end_of_file || length s'.ready + length s'.line == input_buf in
        (record { echo = c ∷ []; woken = full; dump = false }, if full then submit s' else s'))
    else (no_effect, s)

abbrev pub take_back : Line → List ℕ → Effect × Line
take_back s [] = (no_effect, s)
take_back s (x ∷ xs) = (record no_effect { echo = backspace ∷ [] }, record s { line = xs })

unfoldable pub press : Line → ℕ → Effect × Line
unfolding insert
press s key =
    if key == list_processes
    then (record no_effect { dump = true }, s)
    else if key == kill_line
    then (record no_effect { echo = erased s.line }, record s { line = [] })
    else if key == delete || key == erase
    then take_back s s.line
    else insert s key

unfoldable pub typed : Line → List ℕ → Effect × Line
unfolding press
typed s [] = (no_effect, s)
typed s (key ∷ rest) = let (f, s') = press s key in let (g, s'') = typed s' rest in (after f g, s'')

-- The bytes that a read of `n` takes from those that are ready: up to a newline, or up to an end of file,
-- which stays unless it comes first.
unfoldable pub take_ready : List ℕ → Bool → ℕ → List ℕ → ReadOut × List ℕ
take_ready q dead zero acc = (got acc, q)
take_ready [] dead (suc n) acc = if dead then (killed, []) else (asleep acc, [])
take_ready (c ∷ q) dead (suc n) acc =
    let rest = take_ready q dead n (acc ++ c ∷ []) in
    if c == end_of_file
    then (got acc, if is_empty acc then q else c ∷ q)
    else if c == newline
    then (got (acc ++ c ∷ []), q)
    else rest

unfoldable pub serve : Line → Op → Reply × Line
unfolding typed take_ready
serve s (keys ks) = let (f, s') = typed s ks in (typed_reply f, s')
serve s (read dead n acc) =
    let (o, q) = take_ready s.ready dead n acc in (read_reply o, record s { ready = q })

unfoldable pub run : Line → List Op → List Reply
unfolding serve
run s [] = []
run s (op ∷ ops) = let (o, s') = serve s op in o ∷ run s' ops
