-- ===== src/Log/Transaction/Write.antt =====
-- `log_write`: the block is in the transaction afterwards, once.
use os_lab_course_project.Prelude.{
  ℕ, zero, suc, ◌+◌, ◌≤◌, ◌<◌, ◌≡◌, ◌≢◌, ◌⊎◌, inl, inr, ◌==◌, ◌∙◌, ap, arith, ok, Bool-cases,
}
use native.Mathlib.Decide.{dec_lt}
use os_lab_course_project.Log.Disk.{Block, Store, modify, set_dirty}
use os_lab_course_project.Log.Commit.{Log}
use os_lab_course_project.Log.Commit.Loops.{IsHome}
use os_lab_course_project.Log.Commit.Atomic.{IsReady}
use os_lab_course_project.Log.Transaction.{absorb, log_write, logsize}

record Found (block : ℕ → ℕ) (b i top k : ℕ) : Type 0 where
  low : i ≤ k
  high : k ≤ top
  hit : (k ≡ top) ⊎ (block k ≡ b)
  first : (j : ℕ) → i ≤ j → j < k → block j ≢ b

absorb-Found : (block : ℕ → ℕ) (b r i : ℕ) → Found block b i (i + r) (absorb block b r i)
unfolding absorb
absorb-Found block b zero i = record {
  low = omega arith;
  high = omega arith;
  hit = inl (omega arith);
  first = λ j p q. absurd (omega arith);
}
absorb-Found block b (suc r) i = elim (Bool-cases (block i == b)) [
  | inl e ↦ record {
    low = ground arith;
    high = ground arith;
    hit = inr (ground arith);
    first = λ j p q. absurd (ground arith);
  }
  | inr ne ↦
      let ih = absorb-Found block b r (i + 1) in
      rw ne (record {
        low = omega (arith, ih.low);
        high = omega (arith, ih.high);
        hit = ground (arith, ih.hit);
        first = λ j p q. ground (arith, ih.first j, ap block {x = i} {y = j});
      })
]

-- What a `log_write` that does not panic makes of the header.
pub record Wrote (l : Log) (b : ℕ) (l' : Log) : Type 0 where
  pub start : l'.start ≡ l.start
  pub size : l'.size ≡ l.size
  pub outstanding : l'.outstanding ≡ l.outstanding
  pub committing : l'.committing ≡ l.committing
  pub fits : (l.n < logsize) × (l.n + 1 < l.size)
  pub grows : (l'.n ≡ l.n) ⊎ (l'.n ≡ l.n + 1)
  pub listed : (k : ℕ) × (k < l'.n) × (l'.block k ≡ b)
  pub old : (j : ℕ) → j < l.n → (j < l'.n) × (l'.block j ≡ l.block j)
  pub fresh : (j : ℕ) → l.n ≤ j → j < l'.n → (j ≡ l.n) × (l'.block j ≡ b)
  pub unseen : (i j : ℕ) → l.n ≤ j → j < l'.n → i < l.n → l.block i ≢ b

pub log_write-Wrote : (l : Log) (b : ℕ) {l' : Log} → log_write l b ≡ ok l' → Wrote l b l'
unfolding log_write
log_write-Wrote l b {l'} e =
    let f = absorb-Found l.block b l.n 0 in
    record {
      start = ground arith;
      size = ground arith;
      outstanding = ground arith;
      committing = ground arith;
      fits = ground arith;
      grows = ground arith;
      listed = (absorb l.block b l.n 0, ground (arith, f.high), ground arith);
      old = λ j h. ground (arith, f.hit, f.high);
      fresh = λ j p q. ground (arith, f.hit, f.high);
      unseen = λ i j p q h. ground (arith, f.hit, f.high, f.first i);
    }

-- The caller has put `d` into the buffer of `b`, a block outside the log; `log_write` pins it.
abbrev pub write_block : Store → ℕ → Block → Store
write_block s b d = set_dirty (modify s b d) b

pub log_write-IsReady :
    (l : Log) (s : Store) (b : ℕ) (d : Block) {l' : Log}
    → IsReady l s
    → IsHome l b
    → log_write l b ≡ ok l'
    → IsReady l' (write_block s b d)
unfolding modify set_dirty
log_write-IsReady l s b d {l'} r hb e =
    let w = log_write-Wrote l b e in
    let t = r.transaction in
    record {
      transaction = record {
        fits = record {
          room = omega (arith, w.grows, w.fits.1, w.size);
          home = λ i h. elim (dec_lt i l.n) [
            | yes p ↦ ground (arith, w.old i p, t.fits.home i p, w.start, w.size)
            | no p ↦ ground (arith, w.fresh i (omega arith) h, w.start, w.size)
          ];
        };
        distinct = λ i j p q same. elim (dec_lt i l.n) [
          | yes pi ↦ elim (dec_lt j l.n) [
            | yes pj ↦ ground (arith, w.old i pi, w.old j pj, t.distinct i j pi pj)
            | no pj ↦ absurd (
                ground
                  (arith, w.old i pi, w.fresh j (omega arith) q, w.unseen i j (omega arith) q pi))
          ]
          | no pi ↦ elim (dec_lt j l.n) [
            | yes pj ↦ absurd (
                ground
                  (arith, w.old j pj, w.fresh i (omega arith) p, w.unseen j i (omega arith) p pj))
            | no pj ↦ ground (arith, w.fresh i (omega arith) p, w.fresh j (omega arith) q)
          ]
        ];
      };
      clear = ground (arith, w.start, r.clear);
      coherent = λ x hx out.
          let (k, h, at) = w.listed in
          let ne = out k h in
          let kept =
            r.coherent x (ground (arith, w.start, w.size))
              (λ i p same. out i (w.old i p).0 ((w.old i p).1 ∙ same)) in
          ground arith;
    }
