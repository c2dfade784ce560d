-- ===== src/Log/Transaction/Series.antt =====
-- Several calls of `log_write` in one transaction.
use os_lab_course_project.Prelude.{
  ℕ, ◌+◌, ◌^◌, ◌≤◌, ◌<◌, ◌≡◌, ◌∙◌, refl, ◌==◌, if◌then◌else◌, List, [], ◌∷◌, length, update, Result,
  ok, ◌>>=◌, arith,
}
use native.Mathlib.Decide.{}
use os_lab_course_project.Log.Commit.{Log}
use os_lab_course_project.Log.Transaction.{logsize, absorb, log_write}

-- The calls for the blocks of the list, of which the last is the first.
abbrev pub log_writes : Log → List ℕ → Result Log
log_writes l [] = ok l
log_writes l (b ∷ bs) = log_writes l bs >>= λ l'. log_write l' b

log_write_room :
    (l : Log) (b : ℕ)
    → 0 < l.outstanding
    → l.outstanding < 2 ^ 31
    → l.n < logsize
    → l.n + 1 < l.size
    → (l' : Log) × (log_write l b ≡ ok l')
      × (l'.n ≤ l.n + 1)
      × (l'.size ≡ l.size)
      × (l'.outstanding ≡ l.outstanding)
unfolding log_write
log_write_room l b inside word low room =
    let i = absorb l.block b l.n 0 in
    (
      record l { block = update l.block i b; n = if i == l.n then l.n + 1 else l.n },
      ground arith,
      ground arith,
      refl,
      refl,
    )

-- They return in a transaction, if the log has room for one block each.
pub log_writes_room :
    (l : Log) (bs : List ℕ)
    → 0 < l.outstanding
    → l.outstanding < 2 ^ 31
    → l.n + length bs ≤ logsize
    → l.n + length bs < l.size
    → (l' : Log) × (log_writes l bs ≡ ok l')
      × (l'.n ≤ l.n + length bs)
      × (l'.size ≡ l.size)
      × (l'.outstanding ≡ l.outstanding)
log_writes_room l [] inside word low room = (l, refl, omega arith, refl, refl)
log_writes_room l (b ∷ bs) inside word low room =
    let (l1, run, n1, size1, out1) = log_writes_room l bs inside word (omega arith) (omega arith) in
    let (l2, once, n2, size2, out2) =
      log_write_room l1 b (omega (arith, out1)) (omega (arith, out1)) (omega (arith, n1))
        (omega (arith, n1, size1)) in
    (l2, rw run once, omega (arith, n1, n2), size2 ∙ size1, out2 ∙ out1)
