-- ===== src/Fs/Content/Calls.antt =====
-- How often `writei` calls `log_write`.
use Prim.Native.Nat.{}
use os_lab_course_project.Prelude.{
  ℕ, zero, suc, ◌+◌, ◌-◌, ◌*◌, ◌/◌, ◌%◌, ◌≤◌, ◌<◌, ◌≡◌, ◌==◌, inl, inr, ltb, if◌then◌else◌, arith,
  ok, panic, ◌>>=◌, Result, length, Bool-cases, none, some, Option, add32, refl, ap, ◌∙◌, update,
}
use mathlib.Core.Path.{subst}
use native.Mathlib.Decide.{}
use os_lab_course_project.Fs.Blocks.{Fs, log_data, bsize, get32, put32}
use os_lab_course_project.Fs.Bitmap.{
  Super, bblock, bpb, bzero, scan_map, take_bit, balloc_from, balloc,
}
use os_lab_course_project.Fs.Inode.{Inode, slot, entry, bmap, ndirect, nindirect, maxfile}
use os_lab_course_project.Fs.Dinode.{iupdate}
use os_lab_course_project.Fs.Content.{Buffer, piece, blit, write_from, grow_size}

-- From `s` to `t` there are at most `k` calls.
abbrev pub Calls : ℕ → Fs → Fs → Type 0
Calls k s t = length t.logged ≤ k + length s.logged

-- A chain that returns has parts that return.
>>=-ok :
    {A B : Type 0} {y : B} (first : Result A) (next : A → Result B)
    → (first >>= next) ≡ ok y
    → (x : A) × (next x ≡ ok y) × (first ≡ ok x)
>>=-ok (panic why) next returns = absurd (cc)
>>=-ok (ok x) next returns = (x, returns, refl)

balloc_from-Calls :
    (sb : Super) (fuel b : ℕ) (s : Fs) {a : ℕ} {t : Fs}
    → balloc_from sb fuel b s ≡ ok (a, t)
    → Calls 2 s t
unfolding balloc_from take_bit bzero log_data
balloc_from-Calls sb zero b s e = absurd (cc)
balloc_from-Calls sb (suc fuel) b s {a} {t} e = elim (Bool-cases (ltb b sb.size)) [
  | inr f ↦ absurd (cc (rw f at e))
  | inl h ↦
      elim (scan_map (s.blocks (bblock sb b)) sb.size b bpb 0)
          as (λ (o : Option ℕ).
            (elim o [ some bi ↦ ok (take_bit sb b bi s) | none ↦ balloc_from sb fuel (b + bpb) s ])
              ≡ ok (a, t)
            → Calls 2 s t) [
              | some bi ↦ λ q.
                  let pair : take_bit sb b bi s ≡ (a, t) = cc in
                  subst (λ (u : ℕ × Fs). Calls 2 s u.1) pair (omega arith)
              | none ↦ λ q. balloc_from-Calls sb fuel (b + bpb) s q
            ]
        (rw h at e)
]

slot-Calls :
    (sb : Super) (ip : Inode) (i : ℕ) (s : Fs) {a : ℕ} {ip' : Inode} {t : Fs}
    → slot sb ip i s ≡ ok (a, ip', t)
    → Calls 2 s t
unfolding slot balloc
slot-Calls sb ip i s {a} {ip'} {t} e = elim (Bool-cases (ip.addrs i == 0)) [
  | inl h ↦
      let (r, rest, run) =
        >>=-ok (balloc sb s) (λ (b, s'). ok (b, record ip { addrs = update ip.addrs i b }, s'))
          (rw h at e) in
      let same : r.1 ≡ t = cc in
      subst (Calls 2 s) same (balloc_from-Calls sb (sb.size / bpb + 2) 0 s run)
  | inr h ↦
      let same : (ip.addrs i, ip, s) ≡ (a, ip', t) = cc (rw h at e) in
      subst (λ (u : ℕ × Inode × Fs). Calls 2 s u.2) same (omega arith)
]

entry-Calls :
    (sb : Super) (addr bn : ℕ) (s : Fs) {a : ℕ} {t : Fs}
    → entry sb addr bn s ≡ ok (a, t)
    → Calls 3 s t
unfolding entry balloc log_data
entry-Calls sb addr bn s {a} {t} e = elim (Bool-cases (get32 (s.blocks addr) (4 * bn) == 0)) [
  | inl h ↦
      let (r, rest, run) =
        >>=-ok (balloc sb s)
          (λ (b, s'). ok (b, log_data addr (put32 (s'.blocks addr) (4 * bn) b) s')) (rw h at e) in
      let once = balloc_from-Calls sb (sb.size / bpb + 2) 0 s run in
      let same : (r.0, log_data addr (put32 (r.1.blocks addr) (4 * bn) r.0) r.1) ≡ (a, t) = cc in
      subst (λ (u : ℕ × Fs). Calls 3 s u.1) same (omega (arith, once))
  | inr h ↦
      let same : (get32 (s.blocks addr) (4 * bn), s) ≡ (a, t) = cc (rw h at e) in
      subst (λ (u : ℕ × Fs). Calls 3 s u.1) same (omega arith)
]

bmap-Calls :
    (sb : Super) (ip : Inode) (bn : ℕ) (s : Fs) {a : ℕ} {ip' : Inode} {t : Fs}
    → bmap sb ip bn s ≡ ok (a, ip', t)
    → Calls 5 s t
unfolding bmap
bmap-Calls sb ip bn s {a} {ip'} {t} e = elim (Bool-cases (ltb bn ndirect)) [
  | inl h ↦ let few = slot-Calls sb ip bn s (rw h at e) in omega (arith, few)
  | inr h ↦ elim (Bool-cases (ltb (bn - ndirect) nindirect)) [
    | inr k ↦ absurd (cc (rw (h, k) at e))
    | inl k ↦
        let (r, rest, run) =
          >>=-ok (slot sb ip ndirect s)
            (λ (addr, ip', s'). entry sb addr (bn - ndirect) s' >>= λ (a, s''). ok (a, ip', s''))
            (rw (h, k) at e) in
        let (q, last, run') =
          >>=-ok (entry sb r.0 (bn - ndirect) r.2) (λ (a, s''). ok (a, r.1, s'')) rest in
        let few = slot-Calls sb ip ndirect s run in
        let more = entry-Calls sb r.0 (bn - ndirect) r.2 run' in
        let same : (q.0, r.1, q.1) ≡ (a, ip', t) = cc in
        subst (λ (u : ℕ × Inode × Fs). Calls 5 s u.2) same (omega (arith, few, more))
  ]
]

-- Six calls for each block that a write of `len` bytes at `off` touches, and six more at most.
abbrev pub calls_for : ℕ → ℕ → ℕ
calls_for off len = if ltb 0 len then 6 * (1 + (off % bsize + len) / bsize) else 0

calls_for-piece :
    (off len : ℕ)
    → 0 < len
    → 6 + calls_for (off + piece len off) (len - piece len off) ≤ calls_for off len
calls_for-piece off len h = ground arith

pub write_from-Calls :
    (sb : Super) (fuel tot off n : ℕ) (src : Buffer) (ip : Inode) (s : Fs) {off' : ℕ} {ip' : Inode}
    {t : Fs}
    → off + (n - tot) ≤ maxfile * bsize
    → write_from sb fuel tot off n src ip s ≡ ok (off', ip', t)
    → Calls (calls_for off (n - tot)) s t
unfolding write_from log_data
write_from-Calls sb zero tot off n src ip s {off'} {ip'} {t} low e =
    let same : (off, ip, s) ≡ (off', ip', t) = cc in
    subst (λ (u : ℕ × Inode × Fs). Calls (calls_for off (n - tot)) s u.2) same (omega arith)
write_from-Calls sb (suc fuel) tot off n src ip s {off'} {ip'} {t} low e =
    elim (Bool-cases (ltb tot n)) [
      | inr h ↦
          let same : (off, ip, s) ≡ (off', ip', t) = cc (rw (h, write_from) at e) in
          subst (λ (u : ℕ × Inode × Fs). Calls (calls_for off (n - tot)) s u.2) same (omega arith)
      | inl h ↦
          let m = piece (n - tot) off in
          let (r, rest, run) =
            >>=-ok (bmap sb ip (off / bsize) s)
              (λ (a, ip', s').
                write_from sb fuel (tot + m) (add32 off m) n src ip'
                  (log_data a (blit (s'.blocks a) (off % bsize) src tot m) s'))
              (rw (h, write_from) at e) in
          let few = bmap-Calls sb ip (off / bsize) s run in
          let end : add32 off m ≡ off + m = omega arith in
          let left : n - (tot + m) ≡ (n - tot) - m = omega arith in
          let later =
            write_from-Calls sb fuel (tot + m) (add32 off m) n src r.1
              (log_data r.0 (blit (r.2.blocks r.0) (off % bsize) src tot m) r.2) (omega arith)
              rest in
          let inside : tot < n = ground arith in
          let fewer = calls_for-piece off (n - tot) (omega (arith, inside)) in
          let same : calls_for (add32 off m) (n - (tot + m)) ≡ calls_for (off + m) ((n - tot) - m) =
            ap (λ (u : ℕ). calls_for u (n - (tot + m))) end ∙ ap (calls_for (off + m)) left in
          omega (arith, few, later, fewer, same)
    ]

-- With the call of `iupdate`.
pub grow_size-Calls :
    (sb : Super) (off n : ℕ) (ip : Inode) (s : Fs)
    → let (ip', t) = grow_size sb off n ip s in Calls 1 s t
unfolding grow_size iupdate log_data
grow_size-Calls sb off n ip s = ground arith
