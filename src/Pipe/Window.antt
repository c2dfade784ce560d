-- ===== src/Pipe/Window.antt =====
-- The bytes that a valid pipe holds, across the wrap of its counters.
use os_lab_course_project.Prelude.{
  ℕ, zero, suc, ◌-◌, ◌%◌, ◌^◌, ◌≤◌, ◌<◌, ◌≡◌, refl, ◌≢◌, ap, List, [], ◌∷◌, ◌++◌, length, update,
  arith, sub32, add32,
}
use mathlib.Core.Path.{ap₂}
use os_lab_course_project.Pipe.{Pipe, pipesize}
use os_lab_course_project.Pipe.Fifo.{Fifo}

module _ (bytes : ℕ → ℕ) where
  -- The `n` bytes from counter `h` on.
  abbrev pub window : ℕ → ℕ → List ℕ
  window h zero = []
  window h (suc n) = bytes (h % pipesize) ∷ window (add32 h 1) n

  pub length-window : (h n : ℕ) → length (window h n) ≡ n
  length-window h zero = refl
  length-window h (suc n) = ap suc (length-window (add32 h 1) n)

  pub window_of_ne_zero :
      (h n : ℕ) → n ≢ 0 → window h n ≡ bytes (h % pipesize) ∷ window (add32 h 1) (n - 1)
  window_of_ne_zero h zero p = absurd (p refl)
  window_of_ne_zero h (suc n) p = ap (λ k. window h (suc k)) (omega arith)

-- A write just past a window of fewer than PIPESIZE bytes extends it by that byte.
pub window-update :
    (bytes : ℕ → ℕ) (x n h i : ℕ)
    → h < 2 ^ 32
    → n < pipesize
    → i ≡ add32 h n % pipesize
    → window (update bytes i x) h (suc n) ≡ window bytes h n ++ x ∷ []
window-update bytes x zero h i hh hn e = ground arith
window-update bytes x (suc n) h i hh hn e =
    ap₂ ◌∷◌ (ground arith)
      (window-update bytes x n (add32 h 1) i (omega arith) (omega arith) (omega arith))

abbrev pub len : Pipe → ℕ
len p = sub32 p.nwrite p.nread

pub record IsValid (p : Pipe) : Type 0 where
  pub read_word : p.nread < 2 ^ 32
  pub write_word : p.nwrite < 2 ^ 32
  pub bounded : len p ≤ pipesize

abbrev pub contents : Pipe → Fifo
contents p = record {
  queue = window p.bytes p.nread (len p);
  readopen = p.readopen;
  writeopen = p.writeopen;
}
