-- ===== src/Console/Refine.antt =====
-- The input buffer behaves as the line that it holds.
use os_lab_course_project.Prelude.{
  ℕ, zero, suc, ◌+◌, ◌%◌, ◌^◌, ◌≤◌, ◌<◌, ◌≡◌, refl, sym, ap, Bool, true, false, not, ◌&&◌, ◌||◌,
  ◌==◌, ltb, if◌then◌else◌, inl, inr, Bool-cases, List, [], ◌∷◌, ◌++◌, length, length-append, All,
  update, arith, sub32, add32,
}
use mathlib.Core.Path.{subst, ap₂}
use os_lab_course_project.Console.{
  Input, kill_back, backspaces, put_key, on_key, consoleintr, consoleread, handle, run,
}
use os_lab_course_project.Console.Line
use os_lab_course_project.Console.Line.{
  Effect, no_effect, backspace, kill_line, list_processes, delete, erase, newline, carriage_return,
  end_of_file, input_buf, ReadOut, got, killed, asleep, Op, Reply, typed_reply, read_reply, after,
  is_empty, turned, submit, erased, insert, take_back, press, typed, take_ready, serve,
}
use os_lab_course_project.Console.Line.{Line}
use os_lab_course_project.Console.Buffer.{
  Holds, HoldsBack, Holds-update, HoldsBack-update, Holds-append, HoldsBack-Holds,
}

-- The buffer holds the bytes that are ready, and behind them the line, which has no newline in it.
pub record Shows (i : Input) (s : Line) : Type 0 where
  pub word : i.r < 2 ^ 32
  pub at_w : i.w ≡ add32 i.r (length s.ready)
  pub at_e : i.e ≡ add32 i.w (length s.line)
  pub room : length s.ready + length s.line ≤ input_buf
  pub holds : Holds i.buf i.r s.ready
  pub back : HoldsBack i.buf i.e s.line
  pub one_line : All (λ c. (c == newline) ≡ false) s.line

kill_back_lem :
    (xs : List ℕ) (i : Input)
    → i.w < 2 ^ 32
    → length xs ≤ input_buf
    → i.e ≡ add32 i.w (length xs)
    → HoldsBack i.buf i.e xs
    → All (λ c. (c == newline) ≡ false) xs
    → kill_back (length xs) i ≡ (length xs, record i { e = i.w })
unfolding kill_back
kill_back_lem [] i w l e h a = ground (arith, e)
kill_back_lem (x ∷ xs) i w l e (h, hs) (a, as') =
    let more : (i.e == i.w) ≡ false = ground (arith, e, l, w) in
    let other : (i.buf (sub32 i.e 1 % input_buf) == newline) ≡ false = rw h a in
    let ih =
      kill_back_lem xs (record i { e = sub32 i.e 1 }) w (omega arith) (omega (arith, e)) hs as' in
    rw (more, other, ih) (ap (λ (n : ℕ). (n, record i { e = i.w })) (omega arith))

backspaces-length : (xs : List ℕ) → backspaces (length xs) ≡ erased xs
backspaces-length [] = refl
backspaces-length (x ∷ xs) = ap (λ r. backspace ∷ r) (backspaces-length xs)

length-turned : (xs acc : List ℕ) → length (turned xs acc) ≡ length xs + length acc
length-turned [] acc = omega arith
length-turned (x ∷ xs) acc = omega (arith, length-turned xs (x ∷ acc))

-- A key that is stored.
module _ (i : Input) (s : Line) (v : Shows i s) (c : ℕ)
    (free : length s.ready + length s.line < input_buf) where
  abbrev stored : Input
  stored = record i { buf = update i.buf (i.e % input_buf) c; e = add32 i.e 1 }

  abbrev longer : Line
  longer = record s { line = c ∷ s.line }

  put_back : HoldsBack stored.buf stored.e longer.line
  put_back =
      let back : sub32 (add32 i.e 1) 1 ≡ i.e = omega (arith, v.at_e) in
      (
        ground (arith, back),
        subst (λ (k : ℕ). HoldsBack stored.buf k s.line) (sym back)
            (HoldsBack-update i.buf s.line i.e 0 (i.e % input_buf) c (omega (arith, v.at_e))
              (omega (arith, free)) (omega (arith, v.at_e)) v.back),
      )

  put-Holds : Holds stored.buf i.r s.ready
  put-Holds =
      Holds-update i.buf s.ready i.r (length s.ready + length s.line) (i.e % input_buf) c v.word
        (omega arith) free (omega (arith, v.at_e, v.at_w)) v.holds

  longer-Shows : (c == newline) ≡ false → Shows stored longer
  longer-Shows ne = record {
    word = v.word;
    at_w = v.at_w;
    at_e = omega (arith, v.at_e, v.at_w);
    room = omega (arith, free);
    holds = put-Holds;
    back = put_back;
    one_line = (ne, v.one_line);
  }

  submit-Shows : Shows (record stored { w = stored.e }) (submit longer)
  submit-Shows =
      let all_there : add32 i.e 1 ≡ add32 i.w (length longer.line) =
        omega (arith, v.at_e, v.at_w) in
      let size : length (turned longer.line []) ≡ length longer.line + 0 =
        length-turned longer.line [] in
      let sum = length-append s.ready (turned longer.line []) in
      record {
        word = v.word;
        at_w = omega (arith, all_there, size, sum, v.at_w);
        at_e = omega (arith, v.at_e);
        room = omega (arith, size, sum, free);
        holds =
            Holds-append stored.buf s.ready (turned longer.line []) i.r i.w v.at_w
              (omega (arith, v.at_w)) v.word put-Holds
              (HoldsBack-Holds stored.buf longer.line [] stored.e i.w (omega arith)
                (omega (arith, v.at_w)) all_there (omega (arith, free)) put_back tt);
        back = tt;
        one_line = tt;
      }

-- What a call of the buffer gives and leaves, against what the line does.
abbrev Agrees {ℓ} : {A : Type ℓ} → A × Input → A × Line → Type ℓ
Agrees (a, i) (b, s) = (a ≡ b) × Shows i s

put_key_refines :
    (i : Input) (s : Line) (key : ℕ) → Shows i s → key < 256 → Agrees (put_key i key) (insert s key)
unfolding put_key insert
put_key_refines i s key v h =
    let c : ℕ = if key == carriage_return then newline else key in
    let byte : c % 256 ≡ c = ground arith in
    let size : sub32 i.e i.r ≡ length s.ready + length s.line =
      omega (arith, v.at_e, v.at_w, v.room, v.word) in
    elim (Bool-cases (not (key == 0) && ltb (length s.ready + length s.line) input_buf)) [
      | inr full ↦ rw (size, full) (refl, v)
      | inl free ↦
          let room : length s.ready + length s.line < input_buf = ground (arith, free) in
          let last : (add32 i.e 1 == add32 i.r input_buf)
              ≡ (length s.ready + suc (length s.line) == input_buf) =
            ground (arith, v.at_e, v.at_w, room) in
          let plain = longer-Shows i s v c room in
          let done = submit-Shows i s v c room in
          elim (Bool-cases (
            c == newline
            || c == end_of_file
            || length s.ready + suc (length s.line) == input_buf)) [
              | inl ends ↦ rw (size, free, byte, last, ends) (refl, done)
              | inr goes ↦ rw (size, free, byte, last, goes) (refl, plain (ground (arith, goes)))
            ]
    ]

back_refines :
    (i : Input) (xs : List ℕ) (s : Line)
    → s.line ≡ xs
    → Shows i s
    → Agrees
        (if i.e == i.w
          then (no_effect, i)
          else (record no_effect { echo = backspace ∷ [] }, record i { e = sub32 i.e 1 }))
        (take_back s xs)
back_refines i [] s q v =
    let empty : (i.e == i.w) ≡ true = ground (arith, v.at_e, v.at_w, ap length q) in
    rw empty (refl, v)
back_refines i (x ∷ xs) s q v =
    let some_left : (i.e == i.w) ≡ false = ground (arith, v.at_e, v.at_w, ap length q, v.room) in
    let (_, back) = subst (λ (l : List ℕ). HoldsBack i.buf i.e l) q v.back in
    let (_, others) = subst (λ (l : List ℕ). All (λ c. (c == newline) ≡ false) l) q v.one_line in
    rw some_left (
      refl,
      record {
        word = v.word;
        at_w = v.at_w;
        at_e = omega (arith, v.at_e, v.at_w, ap length q);
        room = omega (arith, v.room, ap length q);
        holds = v.holds;
        back = back;
        one_line = others;
      },
    )

kill_refines :
    (i : Input) (s : Line)
    → Shows i s
    → let (n, i') = kill_back (sub32 i.e i.w) i in
      Agrees
        (record no_effect { echo = backspaces n }, i')
        (record no_effect { echo = erased s.line }, record s { line = [] })
kill_refines i s v =
    let size : sub32 i.e i.w ≡ length s.line = omega (arith, v.at_e, v.at_w, v.room) in
    rw
      (
        size,
        kill_back_lem s.line i (omega (arith, v.at_w)) (omega (arith, v.room)) v.at_e v.back
            v.one_line,
        backspaces-length s.line,
      )
      (
        refl,
        record {
          word = v.word;
          at_w = v.at_w;
          at_e = omega (arith, v.at_w);
          room = omega (arith, v.room);
          holds = v.holds;
          back = tt;
          one_line = tt;
        },
      )

on_key_refines :
    (i : Input) (s : Line) (key : ℕ) → Shows i s → key < 256 → Agrees (on_key i key) (press s key)
unfolding on_key press
on_key_refines i s key v h = elim (Bool-cases (key == list_processes)) [
  | inl e ↦ rw e (refl, v)
  | inr a ↦ elim (Bool-cases (key == kill_line)) [
    | inl e ↦ rw (a, e) (kill_refines i s v)
    | inr b ↦ elim (Bool-cases (key == delete || key == erase)) [
      | inl e ↦ rw (a, b, e) (back_refines i s.line s refl v)
      | inr c ↦ rw (a, b, c) (put_key_refines i s key v h)
    ]
  ]
]

consoleintr_refines :
    (ks : List ℕ) (i : Input) (s : Line)
    → Shows i s
    → All (λ k. k < 256) ks
    → Agrees (consoleintr i ks) (typed s ks)
unfolding consoleintr typed
consoleintr_refines [] i s v h = (refl, v)
consoleintr_refines (k ∷ ks) i s v (h, hs) =
    let (e, v') = on_key_refines i s k v h in
    let (f, v'') = consoleintr_refines ks (on_key i k).1 (press s k).1 v' hs in (ap₂ after e f, v'')

take_Shows :
    (i : Input) (c : ℕ) (q line : List ℕ)
    → Shows i (record { ready = c ∷ q; line = line })
    → (i.buf (i.r % input_buf) ≡ c)
      × ((i.r == i.w) ≡ false)
      × (sub32 (add32 i.r 1) 1 ≡ i.r)
      × Shows (record i { r = add32 i.r 1 }) (record { ready = q; line = line })
take_Shows i c q line v = (
  v.holds.0,
  ground (arith, v.at_w, v.room, v.word),
  omega (arith, v.word),
  record {
    word = omega arith;
    at_w = omega (arith, v.at_w);
    at_e = v.at_e;
    room = omega (arith, v.room);
    holds = v.holds.1;
    back = v.back;
    one_line = v.one_line;
  },
)

consoleread_refines :
    (n : ℕ) (i : Input) (q line : List ℕ) (dead : Bool) (acc : List ℕ)
    → Shows i (record { ready = q; line = line })
    → let (o, q') = take_ready q dead n acc in
      Agrees (consoleread i dead n acc) (o, record { ready = q'; line = line })
unfolding consoleread take_ready
consoleread_refines zero i q line dead acc v = (refl, v)
consoleread_refines (suc n) i [] line dead acc v =
    let empty : (i.r == i.w) ≡ true = ground (arith, v.at_w, v.word) in
    elim (Bool-cases dead) [ inl e ↦ rw (empty, e) (refl, v) | inr e ↦ rw (empty, e) (refl, v) ]
consoleread_refines (suc n) i (c ∷ q) line dead acc v =
    let (here, more, back, v') = take_Shows i c q line v in
    let ih = consoleread_refines n (record i { r = add32 i.r 1 }) q line dead (acc ++ c ∷ []) v' in
    elim (Bool-cases (c == end_of_file)) [
      | inl e ↦ elim (Bool-cases (is_empty acc)) [
        | inl a ↦ rw (more, here, e, a) (refl, v')
        | inr a ↦ rw (more, here, e, a, back) (refl, v)
      ]
      | inr e ↦ elim (Bool-cases (c == newline)) [
        | inl a ↦ rw (more, here, e, a) (refl, v')
        | inr a ↦ rw (more, here, e, a) ih
      ]
    ]

abbrev AreBytes : Op → Type 0
AreBytes (Op.keys ks) = All (λ k. k < 256) ks
AreBytes (Op.read dead n acc) = Unit

handle_refines :
    (i : Input) (s : Line) (op : Op) → Shows i s → AreBytes op → Agrees (handle i op) (serve s op)
unfolding handle serve
handle_refines i s (Op.keys ks) v h =
    let (e, v') = consoleintr_refines ks i s v h in (ap typed_reply e, v')
handle_refines i s (Op.read dead n acc) v h =
    let (e, v') = consoleread_refines n i s.ready s.line dead acc v in (ap read_reply e, v')

-- No sequence of keys and reads tells the input buffer from the line that it holds: the bytes that are
-- ready and the line that is edited, of at most INPUT_BUF bytes together, also when the indices wrap.
pub session_refines :
    (ops : List Op) (i : Input) (s : Line)
    → Shows i s
    → All AreBytes ops
    → run i ops ≡ Line.run s ops
unfolding run Line.run
session_refines [] i s v h = refl
session_refines (op ∷ ops) i s v (h, hs) =
    let (e, v') = handle_refines i s op v h in
    ap₂ ◌∷◌ e (session_refines ops (handle i op).1 (serve s op).1 v' hs)
