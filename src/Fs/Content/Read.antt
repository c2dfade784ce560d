-- ===== src/Fs/Content/Read.antt =====
-- `readi`: what it copies, and that it reads back what `writei` wrote.
use Prim.Native.Nat.{}
use mathlib.Core.Path.{subst₂}
use os_lab_course_project.Prelude.{
  ℕ, zero, suc, ◌+◌, ◌-◌, ◌*◌, ◌/◌, ◌%◌, ◌^◌, ◌≤◌, ◌<◌, ◌≡◌, ◌≢◌, ◌∙◌, refl, sym, ap, ◌==◌, ==_ne,
  ◌&&◌, ◌||◌, true, false, ltb, leb, if◌then◌else◌, arith, Bool-cases, inl, inr, Option, some, ok,
  ◌>>=◌, add32,
}
use os_lab_course_project.Fs.Blocks.{Fs, bsize}
use os_lab_course_project.Fs.Bitmap.{Super}
use os_lab_course_project.Fs.Inode.{Inode, maxfile, bmap}
use os_lab_course_project.Fs.Inode.Owned.{owned}
use os_lab_course_project.Fs.Inode.Map.{bmap-kept}
use os_lab_course_project.Fs.Content.{Buffer, Device, blit, piece, t_dev, read_from, readi, writei}
use os_lab_course_project.Fs.Content.Update.{byte_in, content}
use os_lab_course_project.Fs.Content.Round.{overlay}
use os_lab_course_project.Fs.Content.Stored.{IsStored, Wrote}
use os_lab_course_project.Fs.Content.Writei.{writei-Wrote}

-- The buffer after a copy of the file's bytes from `off` on to the places from `tot` to `n`.
abbrev pub filled_from : Buffer → (ℕ → ℕ) → ℕ → ℕ → ℕ → ℕ → ℕ
filled_from dst bytes tot n off x = if leb tot x && ltb x n then bytes (off + (x - tot)) else dst x

module _ (sb : Super) (fuel tot off n : ℕ) (dst : Buffer) (ip : Inode) (s : Fs) where
  read_from-stop : ltb tot n ≡ false → read_from sb (suc fuel) tot off n dst ip s ≡ ok (dst, ip, s)
  unfolding read_from
  read_from-stop e = rw (e, read_from)

  read_from-go :
      {a : ℕ}
      → ltb tot n ≡ true
      → bmap sb ip (off / bsize) s ≡ ok (a, ip, s)
      → read_from sb (suc fuel) tot off n dst ip s
        ≡ read_from sb fuel
            (tot + piece (n - tot) off)
            (add32 off (piece (n - tot) off))
            n
            (blit dst tot (s.blocks a) (off % bsize) (piece (n - tot) off))
            ip
            s
  unfolding read_from
  read_from-go e f = rw (e, read_from, f)

read_from-spent :
    (sb : Super) (tot off n : ℕ) (dst : Buffer) (ip : Inode) (s : Fs)
    → read_from sb 0 tot off n dst ip s ≡ ok (dst, ip, s)
unfolding read_from
read_from-spent sb tot off n dst ip s = refl

-- A piece of a block that the file has is a piece of the file.
read_piece :
    (dst : Buffer) (s : Fs) (ip : Inode) (tot off k x : ℕ)
    → owned s ip (off / bsize) ≢ 0
    → off % bsize + k ≤ bsize
    → blit dst tot (s.blocks (owned s ip (off / bsize))) (off % bsize) k x
      ≡ filled_from dst (content s ip) tot (tot + k) off x
read_piece dst s ip tot off k x ne h = elim (Bool-cases (leb tot x && ltb x (tot + k))) [
  | inr out ↦ rw out
  | inl within ↦
      let p = off + (x - tot) in
      let i : p / bsize ≡ off / bsize = ground arith in
      let j : p % bsize ≡ off % bsize + (x - tot) = ground arith in
      rw within (
        sym (
          ap (λ (b : ℕ). byte_in s b (p % bsize)) (ap (owned s ip) i)
          ∙ rw (==_ne (owned s ip (off / bsize)) 0 ne)
              (ap (s.blocks (owned s ip (off / bsize))) j)))
]

filled_step :
    (dst : Buffer) (bytes : ℕ → ℕ) (tot n off k x : ℕ)
    → tot + k ≤ n
    → filled_from (filled_from dst bytes tot (tot + k) off) bytes (tot + k) n (off + k) x
      ≡ filled_from dst bytes tot n off x
filled_step dst bytes tot n off k x h =
    ground (arith, ap bytes {x = off + k + (x - (tot + k))} {y = off + (x - tot)})

module _ {sb : Super} {s : Fs} {ip : Inode} (t : IsStored sb s ip) (n : ℕ) where
  read_from_lem :
      (fuel tot off : ℕ) (dst : Buffer)
      → tot ≤ n
      → n - tot ≤ fuel
      → off + (n - tot) ≤ ip.size
      → (dst' : Buffer) × (read_from sb fuel tot off n dst ip s ≡ ok (dst', ip, s))
        × ((x : ℕ) → dst' x ≡ filled_from dst (content s ip) tot n off x)
  read_from_lem zero tot off dst le enough inside =
      (dst, read_from-spent sb tot off n dst ip s, λ x. ground arith)
  read_from_lem (suc fuel) tot off dst le enough inside = elim (Bool-cases (ltb tot n)) [
    | inr e ↦ (dst, read_from-stop sb fuel tot off n dst ip s e, λ x. ground arith)
    | inl e ↦
        let more : tot < n = ground arith in
        let ne = t.whole (off / bsize) (omega arith) in
        let k = piece (n - tot) off in
        let a = owned s ip (off / bsize) in
        let dst1 : Buffer = blit dst tot (s.blocks a) (off % bsize) k in
        let got =
          bmap-kept sb s ip (off / bsize) t.small t.sane t.file (omega (arith, t.fits)) ne in
        let same : add32 off k ≡ off + k = omega (arith, t.fits) in
        let (dst', r, bytes) =
          read_from_lem fuel (tot + k) (off + k) dst1 (omega arith) (omega arith) (omega arith) in
        (
          dst',
          read_from-go sb fuel tot off n dst ip s e got
              ∙ ap (λ (o : ℕ). read_from sb fuel (tot + k) o n dst1 ip s) same
              ∙ r,
          λ x.
              bytes x
              ∙ ap
                  (λ (c : ℕ).
                    if leb (tot + k) x && ltb x n
                    then content s ip (off + k + (x - (tot + k)))
                    else c)
                  (read_piece dst s ip tot off k x ne (omega arith))
              ∙ filled_step dst (content s ip) tot n off k x (omega arith),
        )
  ]

module _ (devsw : ℕ → Option Device) {sb : Super} {s : Fs} {ip : Inode} (t : IsStored sb s ip)
    (regular : ip.type ≢ t_dev) (dst : Buffer) (off n : ℕ) where
  abbrev pub available : ℕ
  available = if ltb ip.size (off + n) then ip.size - off else n

  readi-run :
      off ≤ ip.size
      → off + n < 2 ^ 32
      → readi devsw sb ip dst off n s ≡ (
          read_from sb available 0 off available dst ip s >>= λ (dst', ip', s').
          ok (some available, dst', ip', s'))
  unfolding readi
  readi-run low high =
      let a : (ip.type == t_dev) ≡ false = ==_ne ip.type t_dev regular in
      let c : add32 off n ≡ off + n = omega arith in
      let b : (ltb ip.size off || ltb (off + n) off) ≡ false = ground arith in rw (a, c, b)

  -- `readi` of a stored file that is no device, from an offset up to its size: it copies the bytes of
  -- the file from there on, `n` of them or those that there are, returns how many, touches no other
  -- place of the buffer, and changes neither the file nor the disk.
  pub readi_lem :
      off ≤ ip.size
      → off + n < 2 ^ 32
      → (dst' : Buffer) × (readi devsw sb ip dst off n s ≡ ok (some available, dst', ip, s))
        × ((x : ℕ) → dst' x ≡ (if ltb x available then content s ip (off + x) else dst x))
  readi_lem low high =
      let (dst', r, bytes) =
        read_from_lem t available available 0 off dst (omega arith) (omega arith) (ground arith) in
      (
        dst',
        readi-run low high ∙ rw r,
        λ x. bytes x ∙ ground (arith, ap (content s ip) {x = off + (x - 0)} {y = off + x}),
      )

overlay_back :
    (old : ℕ → ℕ) (off : ℕ) (src : Buffer) (n x : ℕ)
    → x < n
    → overlay old off src 0 n (off + x) ≡ src x
overlay_back old off src n x h = ground (arith, ap src {x = 0 + (off + x - off)} {y = x})

read_back :
    (devsw : ℕ → Option Device) {sb : Super} {s s' : Fs} {ip ip' : Inode} (src dst : Buffer)
    (off n : ℕ)
    → Wrote sb s ip off n src s' ip'
    → ip.type ≢ t_dev
    → off + n ≤ maxfile * bsize
    → (dst' : Buffer) × (readi devsw sb ip' dst off n s' ≡ ok (some n, dst', ip', s'))
      × ((x : ℕ) → dst' x ≡ (if ltb x n then src x else dst x))
read_back devsw {sb} {s} {s'} {ip} {ip'} src dst off n w regular high =
    let all : available devsw w.stored (rw w.type regular) dst off n ≡ n = ground (arith, w.size) in
    let (dst', r, bytes) =
      readi_lem devsw w.stored (rw w.type regular) dst off n (ground (arith, w.size))
        (omega arith) in
    (
      dst',
      r ∙ ap (λ (k : ℕ). ok (some k, dst', ip', s')) all,
      λ x.
          bytes x
          ∙ ap (λ (k : ℕ). if ltb x k then content s' ip' (off + x) else dst x) all
          ∙ elim (Bool-cases (ltb x n)) [
            | inr e ↦ rw e
            | inl e ↦ rw e (
                w.bytes (off + x) (ground arith)
                ∙ overlay_back (content s ip) off src n x (ground arith))
          ],
    )

-- Into a stored file that is no device, at an offset up to its size and within the largest size: when
-- `writei` of `n` bytes has returned, `readi` of `n` bytes at the same offset returns `n`, gives the
-- bytes that were written, and changes neither the file nor the disk.
pub readi-writei :
    (devsw : ℕ → Option Device) {sb : Super} {s s' : Fs} {ip ip' : Inode} (src dst : Buffer)
    (off n : ℕ)
    → IsStored sb s ip
    → ip.type ≢ t_dev
    → ((x : ℕ) → src x < 256)
    → off ≤ ip.size
    → off + n ≤ maxfile * bsize
    → writei devsw sb ip src off n s ≡ ok (some n, ip', s')
    → (dst' : Buffer) × (readi devsw sb ip' dst off n s' ≡ ok (some n, dst', ip', s'))
      × ((x : ℕ) → dst' x ≡ (if ltb x n then src x else dst x))
readi-writei devsw {sb} {s} {s'} {ip} {ip'} src dst off n t regular bytes low high e =
    elim (writei-Wrote devsw sb ip src off n s regular t bytes low high) [
      | inr (full, _) ↦ absurd (cc)
      | inl (ip1, s1, r, w) ↦
          let a : ip1 ≡ ip' = cc in
          let b : s1 ≡ s' = cc in
          read_back devsw src dst off n (subst₂ (Wrote sb s ip off n src) b a w) regular high
    ]
