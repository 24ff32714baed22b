-- ===== src/Tests/Outputs.antt =====
-- Tests of the output files of the programs.
use mathlib.Core.List.Permᴰ
use deadline_driven_enhancem.Base.{
  ℕ, ◌≡◌, refl, inl, inr, Bool, true, false, not, ◌&&◌, ◌==◌, List, [], ◌∷◌, Permᴰ, All, All-perm,
  arith, if◌then◌else◌, Bool-cases,
}
use deadline_driven_enhancem.TestNodes.{Text, Log, bytes}
use deadline_driven_enhancem.Experiment.Output.{
  IsStrictWeak, IsSorted, Sorting, dy_2_output, st_2_output, arb_static_output, multi_static_output,
  multi_test_output, arb_test_output, muex_test_output, muex_static_output,
}
use deadline_driven_enhancem.Experiment.Output.ReadBack.{
  IsLine, IsFile, entries, plain_logs, muex_logs, output-IsFile, muex_output-IsFile,
}

-- A sort by insertion.
module _ (less : Text × ℕ → Text × ℕ → Bool) where
  insert : Text × ℕ → Log → Log
  insert x [] = x ∷ []
  insert x (y ∷ ys) = let rest = insert x ys in if less y x then y ∷ rest else x ∷ y ∷ ys

  sort : Log → Log
  unfolding insert
  sort [] = []
  sort (x ∷ xs) = insert x (sort xs)

  insert-perm : (x : Text × ℕ) (ys : Log) → Permᴰ (x ∷ ys) (insert x ys)
  unfolding insert
  insert-perm x [] = Permᴰ.refl _
  insert-perm x (y ∷ ys) = elim (Bool-cases (less y x)) [
    | inl e ↦
        rw (e, insert) (Permᴰ.trans (Permᴰ.swap refl refl) (Permᴰ.cons refl (insert-perm x ys)))
    | inr e ↦ rw (e, insert) (Permᴰ.refl _)
  ]

  sort-perm : (xs : Log) → Permᴰ xs (sort xs)
  unfolding sort
  sort-perm [] = Permᴰ.nil
  sort-perm (x ∷ xs) = Permᴰ.trans (Permᴰ.cons refl (sort-perm xs)) (insert-perm x (sort xs))

  module _ (w : IsStrictWeak less) where
    below :
        (x y : Text × ℕ) (ys : Log)
        → less y x ≡ false
        → All (λ z. less z y ≡ false) ys
        → All (λ z. less z x ≡ false) ys
    below x y [] e h = tt
    below x y (z ∷ ys) e (h, hs) = (w.transitive z y x h e, below x y ys e hs)

    insert-IsSorted : (x : Text × ℕ) (ys : Log) → IsSorted less ys → IsSorted less (insert x ys)
    unfolding insert
    insert-IsSorted x [] o = (tt, tt)
    insert-IsSorted x (y ∷ ys) (o, os) = elim (Bool-cases (less y x)) [
      | inl e ↦
          rw (e, insert)
            (
              All-perm (λ z. less z y ≡ false) (insert-perm x ys) (w.asymmetric y x e, o),
              insert-IsSorted x ys os,
            )
      | inr e ↦ rw (e, insert) ((e, below x y ys e o), (o, os))
    ]

    sort-IsSorted : (xs : Log) → IsSorted less (sort xs)
    unfolding sort
    sort-IsSorted [] = tt
    sort-IsSorted (x ∷ xs) = insert-IsSorted x (sort xs) (sort-IsSorted xs)

abbrev sorting : Sorting
sorting = record { sort = sort; perm = sort-perm; ordered = λ less log w. sort-IsSorted less w log }

abbrev publishers : List Log
publishers = ((bytes "0 release_time: 5", 50) ∷ (bytes "0 release_time: 9", 90) ∷ []) ∷ []

abbrev workers : List Log
workers = ((bytes "0 completed_time: 7", 70) ∷ []) ∷ []

abbrev main_log : Log
main_log = (bytes "0 release_time: 1", 10) ∷ []

is_line : Text → Bool
is_line [] = true
is_line (c ∷ cs) = not (c == 10) && is_line cs

is_line-IsLine : (t : Text) → is_line t ≡ true → IsLine t
unfolding is_line
is_line-IsLine [] h = tt
is_line-IsLine (c ∷ cs) h = (λ e. ground (arith, e), is_line-IsLine cs (ground (arith, h)))

released_5 : IsLine (bytes "0 release_time: 5")
unfolding is_line
released_5 = is_line-IsLine (bytes "0 release_time: 5") refl

released_9 : IsLine (bytes "0 release_time: 9")
unfolding is_line
released_9 = is_line-IsLine (bytes "0 release_time: 9") refl

completed_7 : IsLine (bytes "0 completed_time: 7")
unfolding is_line
completed_7 = is_line-IsLine (bytes "0 completed_time: 7") refl

released_1 : IsLine (bytes "0 release_time: 1")
unfolding is_line
released_1 = is_line-IsLine (bytes "0 release_time: 1") refl

output-IsFile_example :
    IsFile
      (entries (plain_logs sorting publishers workers [] main_log))
      (dy_2_output sorting publishers workers [] main_log)
    × IsFile
        (entries (plain_logs sorting publishers workers [] main_log))
        (st_2_output sorting publishers workers [] main_log)
    × IsFile
        (entries (plain_logs sorting publishers workers [] main_log))
        (arb_static_output sorting publishers workers [] main_log)
    × IsFile
        (entries (plain_logs sorting publishers workers [] main_log))
        (multi_static_output sorting publishers workers [] main_log)
    × IsFile
        (entries (plain_logs sorting publishers workers [] main_log))
        (multi_test_output sorting publishers workers [] main_log)
    × IsFile
        (entries (plain_logs sorting publishers workers [] main_log))
        (arb_test_output sorting publishers workers [] main_log)
output-IsFile_example =
    output-IsFile sorting publishers workers [] main_log
      ((released_5, (released_9, tt)), ((completed_7, tt), (tt, ((released_1, tt), tt))))

muex_output-IsFile_example :
    IsFile
      (entries (muex_logs sorting publishers workers [] main_log main_log))
      (muex_static_output sorting publishers workers main_log [] main_log)
    × IsFile
        (entries (muex_logs sorting publishers workers [] main_log main_log))
        (muex_test_output sorting publishers workers main_log [] main_log)
muex_output-IsFile_example = muex_output-IsFile sorting publishers workers [] main_log main_log (
  (released_5, (released_9, tt)),
  ((completed_7, tt), ((released_1, tt), (tt, ((released_1, tt), tt)))),
)

file_lem :
    dy_2_output sorting publishers workers [] main_log
    ≡ bytes
        "10 0 release_time: 1\n50 0 release_time: 5\n70 0 completed_time: 7\n90 0 release_time: 9\n"
unfolding dy_2_output sort insert
file_lem = refl
