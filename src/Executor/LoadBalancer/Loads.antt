-- ===== src/Executor/LoadBalancer/Loads.antt =====
-- What the statistics say of the loads that were stored.
use mathlib.Core.List.{Perm}
use mathlib.Core.List.Perm
use fabaccess_server.Prelude.{
  ℕ, zero, suc, ◌+◌, ◌/◌, ◌<◌, ◌≤◌, some, take, ◌≡◌, ◌≢◌, refl, ap, ◌∙◌, Bool-cases, inl, inr, leb,
  true, false, List, [], ◌∷◌, ◌++◌, replicate, ◌==◌, arith,
}
use fabaccess_server.Executor.LoadBalancer.{
  usize_max, Stats, sum_loop, update_mean, loads_from, insert, sort_by_load, get_sorted_load,
}

-- No load of the list is above this one.
abbrev pub AtMost : ℕ → List (ℕ × ℕ) → Type 0
AtMost n [] = Unit {0}
AtMost n (y ∷ ys) = (y.1 ≤ n) × AtMost n ys

abbrev pub IsDescending : List (ℕ × ℕ) → Type 0
IsDescending [] = Unit {0}
IsDescending (x ∷ xs) = AtMost x.1 xs × IsDescending xs

AtMost-le : (m n : ℕ) (ys : List (ℕ × ℕ)) → m ≤ n → AtMost m ys → AtMost n ys
AtMost-le m n [] le a = tt
AtMost-le m n (y ∷ ys) le (a, b) = (omega (arith, a), AtMost-le m n ys le b)

insert-AtMost :
    (n : ℕ) (x : ℕ × ℕ) (ys : List (ℕ × ℕ)) → x.1 ≤ n → AtMost n ys → AtMost n (insert x ys)
unfolding insert
insert-AtMost n x [] le a = (le, tt)
insert-AtMost n x (y ∷ ys) le (a, b) = elim (Bool-cases (leb y.1 x.1)) [
  | inl here ↦ rw here (le, (a, b))
  | inr later ↦ rw later (a, insert-AtMost n x ys le b)
]

insert-IsDescending : (x : ℕ × ℕ) (ys : List (ℕ × ℕ)) → IsDescending ys → IsDescending (insert x ys)
unfolding insert
insert-IsDescending x [] d = (tt, tt)
insert-IsDescending x (y ∷ ys) (a, d) = elim (Bool-cases (leb y.1 x.1)) [
  | inl here ↦
      let le : y.1 ≤ x.1 = ground arith in rw here ((le, AtMost-le y.1 x.1 ys le a), (a, d))
  | inr later ↦
      let le : x.1 ≤ y.1 = ground arith in
      rw later (insert-AtMost y.1 x ys le a, insert-IsDescending x ys d)
]

Perm-insert : (x : ℕ × ℕ) (ys : List (ℕ × ℕ)) → Perm (insert x ys) (x ∷ ys)
unfolding insert
Perm-insert x [] = Perm.refl _
Perm-insert x (y ∷ ys) = elim (Bool-cases (leb y.1 x.1)) [
  | inl here ↦ rw here (Perm.refl _)
  | inr later ↦ rw later (Perm.trans (Perm.cons y (Perm-insert x ys)) (Perm.swap x y ys))
]

sort_by_load_lem : (xs : List (ℕ × ℕ)) → Perm (sort_by_load xs) xs × IsDescending (sort_by_load xs)
unfolding sort_by_load
sort_by_load_lem [] = (Perm.refl _, tt)
sort_by_load_lem (x ∷ xs) =
    let (p, d) = sort_by_load_lem xs in
    (
      Perm.trans (Perm-insert x (sort_by_load xs)) (Perm.cons x p),
      insert-IsDescending x (sort_by_load xs) d,
    )

-- Each core with its load.
abbrev pub enumerate : ℕ → List ℕ → List (ℕ × ℕ)
enumerate core [] = []
enumerate core (load ∷ loads) = (core, load) ∷ enumerate (core + 1) loads

abbrev pub IsLoads : List ℕ → Type 0
IsLoads [] = Unit {0}
IsLoads (load ∷ loads) = (load ≢ usize_max) × IsLoads loads

loads_from-append :
    (core : ℕ) (loads : List ℕ) (more : ℕ)
    → IsLoads loads
    → loads_from core (loads ++ replicate more usize_max) ≡ enumerate core loads
unfolding loads_from
loads_from-append core [] zero l = refl
loads_from-append core [] (suc more) l = refl
loads_from-append core (load ∷ loads) more (ne, l) = elim (Bool-cases (load == usize_max)) [
  | inl e ↦ absurd (ne (ground arith))
  | inr other ↦
      rw other
        (ap (λ (q : List (ℕ × ℕ)). (core, load) ∷ q) (loads_from-append (core + 1) loads more l))
]

-- Where the array begins with the loads of some cores, none the largest number, and holds only
-- the largest number behind them, `get_sorted_load` lists exactly these cores, each with its
-- load, from the highest load to the lowest.
pub get_sorted_load_lem :
    (s : Stats) (loads : List ℕ) (more : ℕ)
    → s.smp_load ≡ loads ++ replicate more usize_max
    → IsLoads loads
    → Perm (get_sorted_load s) (enumerate 0 loads) × IsDescending (get_sorted_load s)
unfolding get_sorted_load
get_sorted_load_lem s loads more e l =
    let q : loads_from 0 s.smp_load ≡ enumerate 0 loads = rw e (loads_from-append 0 loads more l) in
    rw q (sort_by_load_lem (enumerate 0 loads))

abbrev pub total : List ℕ → ℕ
total [] = 0
total (load ∷ loads) = load + total loads

sum_loop_lem :
    (sum : ℕ) (loads : List ℕ)
    → sum + total loads ≤ usize_max
    → sum_loop sum loads ≡ sum + total loads
unfolding sum_loop
sum_loop_lem sum [] le = omega arith
sum_loop_lem sum (load ∷ loads) le =
    let fits : leb (sum + load) usize_max ≡ true = ground arith in
    rw fits (sum_loop_lem (sum + load) loads (omega arith) ∙ omega arith)

-- A mean that nobody else computes is that of the loads of the cores, where their sum fits.
pub update_mean_lem :
    (num_cores : ℕ) (s : Stats)
    → s.updating_mean ≡ false
    → 0 < num_cores
    → total (take num_cores s.smp_load) ≤ usize_max
    → update_mean num_cores s
      ≡ some (record s { mean_level = total (take num_cores s.smp_load) / num_cores })
unfolding update_mean
update_mean_lem num_cores s idle some_cores fits =
    let more : (num_cores == 0) ≡ false = ground arith in
    let sum : sum_loop 0 (take num_cores s.smp_load) ≡ total (take num_cores s.smp_load) =
      sum_loop_lem 0 (take num_cores s.smp_load) (omega arith) ∙ omega arith in
    rw (idle, more, sum)
