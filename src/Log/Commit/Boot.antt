-- ===== src/Log/Commit/Boot.antt =====
-- `initlog` at boot: it finishes a committed transaction, or finds none.
use os_lab_course_project.Prelude.{
  ℕ, ◌+◌, ◌≤◌, ◌<◌, ◌≡◌, refl, ◌⊎◌, inl, inr, ◌∙◌, sym, ap, arith, List, [], ◌∷◌,
}
use os_lab_course_project.Log.Disk.{Block, Store, bread, reboot}
use os_lab_course_project.Log.Commit.{Log, read_head, recover_from_log, initlog, blank}
use os_lab_course_project.Log.Commit.Loops.{IsHome, read_blocks_lem}
use os_lab_course_project.Log.Commit.Recovery.{IsIdle, IsCommitted, IsTransaction, finish_lem}

-- Two logs in the same place with the same transaction.
record IsSame (l m : Log) : Type 0 where
  start : l.start ≡ m.start
  size : l.size ≡ m.size
  n : l.n ≡ m.n
  block : (i : ℕ) → i < l.n → l.block i ≡ m.block i

IsTransaction-same : {l m : Log} → IsSame l m → IsTransaction l → IsTransaction m
IsTransaction-same e t = record {
  fits = record {
    room = omega (arith, e.n, e.size, t.fits.room);
    home = λ i h. ground (arith, e.n, e.size, e.start, e.block i, t.fits.home i);
  };
  distinct = λ i j p q w. ground (arith, e.n, e.block i, e.block j, t.distinct i j);
}

IsHome-same : {l m : Log} {x : ℕ} → IsSame l m → IsHome m x → IsHome l x
IsHome-same e h = ground (arith, e.start, e.size)

module _ {l m : Log} (want d : ℕ → Block) (e : IsSame l m) where
  IsCommitted-same : IsCommitted l want d → IsCommitted m want d
  IsCommitted-same c = record {
    count = ap (λ (x : ℕ). d x 0) (sym e.start) ∙ c.count ∙ e.n;
    names = λ i h.
        ap (λ (x : ℕ). d x (i + 1)) (sym e.start)
        ∙ c.names i (omega (arith, e.n))
        ∙ e.block i (omega (arith, e.n));
    logged = λ i h.
        ap (λ (x : ℕ). d (x + i + 1)) (sym e.start)
        ∙ c.logged i (omega (arith, e.n))
        ∙ ap want (e.block i (omega (arith, e.n)));
    others = λ x hx out.
        c.others x (IsHome-same e hx) (λ i h q. out i (omega (arith, e.n)) (sym (e.block i h) ∙ q));
  }

  IsIdle-same : IsIdle l want d → IsIdle m want d
  IsIdle-same c = record {
    clear = ap (λ (x : ℕ). d x 0) (sym e.start) ∙ c.clear;
    home = λ x hx. c.home x (IsHome-same e hx);
  }

IsSame-symm : {l m : Log} → IsSame l m → IsSame m l
IsSame-symm e = record {
  start = sym e.start;
  size = sym e.size;
  n = sym e.n;
  block = λ i h. sym (e.block i (omega (arith, e.n)));
}

abbrev fresh : Log → Log
fresh l = blank l.start l.size

-- The state that `initlog` starts from after a power failure, `k` block writes before the next.
abbrev pub boot : Log → ℕ → Store → Store
boot l k s = (initlog l.start l.size (reboot k s)).1

read_head-IsSame :
    (l : Log) (want : ℕ → Block) (s : Store)
    → IsCommitted l want s.disk
    → (k : ℕ) → IsSame l (read_head (fresh l) (reboot k s))
unfolding read_head bread reboot
read_head-IsSame l want s c k = record {
  start = refl;
  size = refl;
  n = sym c.count;
  block = λ i h.
      ground (
        arith,
        c.count,
        c.names i,
        read_blocks_lem (s.disk l.start) (s.disk l.start 0) 0 (λ _. 0) i,
      );
}

-- A failure during recovery leaves the transaction in the log; `l.n + 1` writes complete it.
pub boot-IsCommitted :
    (l : Log) (want : ℕ → Block) (s : Store) (k : ℕ)
    → IsTransaction l
    → IsCommitted l want s.disk
    → (IsCommitted l want (boot l k s).disk × (k ≤ l.n)) ⊎ IsIdle l want (boot l k s).disk
unfolding initlog recover_from_log reboot
boot-IsCommitted l want s k t c =
    let m = read_head (fresh l) (reboot k s) in
    let e = read_head-IsSame l want s c k in
    let c' = IsCommitted-same want s.disk e c in
    elim (finish_lem m want (reboot k s) (IsTransaction-same e t) c' c'.logged) [
      | inl (c'', b) ↦ inl (IsCommitted-same want _ (IsSame-symm e) c'', omega (arith, e.n))
      | inr i ↦ inr (IsIdle-same want _ (IsSame-symm e) i)
    ]

-- A log with no transaction is one whose transaction is empty.
fresh-IsCommitted : (l : Log) (want d : ℕ → Block) → IsIdle l want d → IsCommitted (fresh l) want d
fresh-IsCommitted l want d c = record {
  count = c.clear;
  names = λ i h. absurd (omega arith);
  logged = λ i h. absurd (omega arith);
  others = λ x hx _. c.home x hx;
}

fresh-IsIdle : (l : Log) (want d : ℕ → Block) → IsCommitted (fresh l) want d → IsIdle l want d
fresh-IsIdle l want d c = record {
  clear = c.count;
  home = λ x hx. c.others x hx (λ i h. absurd (omega arith));
}

fresh-IsTransaction : (l : Log) → 0 < l.size → IsTransaction (fresh l)
fresh-IsTransaction l z = record {
  fits = record { room = z; home = λ i h. absurd (omega arith) };
  distinct = λ i j h. absurd (omega arith);
}

-- A boot that finds no transaction changes no home block.
pub boot-IsIdle :
    (l : Log) (want : ℕ → Block) (s : Store) (k : ℕ)
    → 0 < l.size
    → IsIdle l want s.disk
    → IsIdle l want (boot l k s).disk
boot-IsIdle l want s k z c =
    elim (boot-IsCommitted (fresh l) want s k (fresh-IsTransaction l z)
      (fresh-IsCommitted l want s.disk c)) [
        | inl (c', _) ↦ fresh-IsIdle l want _ c'
        | inr i ↦ record { clear = i.clear; home = i.home }
      ]

-- Any number of boots that may fail, with the budgets of the list, and then one with `k`.
pub boots : Log → List ℕ → ℕ → Store → Store
boots l [] k s = boot l k s
boots l (j ∷ js) k s = boots l js k (boot l j s)

pub boots-IsIdle :
    (l : Log) (want : ℕ → Block) (js : List ℕ) (k : ℕ) (s : Store)
    → 0 < l.size
    → IsIdle l want s.disk
    → IsIdle l want (boots l js k s).disk
unfolding boots
boots-IsIdle l want [] k s z c = boot-IsIdle l want s k z c
boots-IsIdle l want (j ∷ js) k s z c =
    boots-IsIdle l want js k (boot l j s) z (boot-IsIdle l want s j z c)

pub boots-IsCommitted :
    (l : Log) (want : ℕ → Block) (js : List ℕ) (k : ℕ) (s : Store)
    → IsTransaction l
    → l.n < k
    → IsCommitted l want s.disk
    → IsIdle l want (boots l js k s).disk
unfolding boots
boots-IsCommitted l want [] k s t h c = elim (boot-IsCommitted l want s k t c) [
  | inl (_, b) ↦ absurd (omega arith)
  | inr i ↦ i
]
boots-IsCommitted l want (j ∷ js) k s t h c = elim (boot-IsCommitted l want s j t c) [
  | inl (c', _) ↦ boots-IsCommitted l want js k (boot l j s) t h c'
  | inr i ↦ boots-IsIdle l want js k (boot l j s) (omega (arith, t.fits.room)) i
]
