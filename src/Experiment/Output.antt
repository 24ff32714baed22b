-- ===== src/Experiment/Output.antt =====
-- What the programs write when they have run, in dy_2.cpp, st_2.cpp, arb_static.cpp,
-- multi_static1.cpp, muex_static1.cpp, multi_test.cpp, arb_test.cpp and muex_test.cpp under
-- source_code/src/priority_executor/src: the entries of all logs, sorted by their time, one to a
-- line. std::sort is a parameter.
pub mod ReadBack
use deadline_driven_enhancem.Base.{ℕ, ◌≡◌, Bool, true, false, List, [], ◌∷◌, ◌++◌, Permᴰ, All, ltb}
use deadline_driven_enhancem.TestNodes.{Text, Log, bytes, to_string}

-- What std::sort requires of its comparison.
pub record IsStrictWeak (less : Text × ℕ → Text × ℕ → Bool) : Type 0 where
  pub asymmetric : (a b : Text × ℕ) → less a b ≡ true → less b a ≡ false
  pub transitive : (a b c : Text × ℕ) → less a b ≡ false → less b c ≡ false → less a c ≡ false

-- No entry is less than one before it.
abbrev pub IsSorted : (Text × ℕ → Text × ℕ → Bool) → Log → Type 0
IsSorted less [] = Unit
IsSorted less (a ∷ log) = All (λ b. less b a ≡ false) log × IsSorted less log

-- std::sort, as the C++ standard documents it.
pub record Sorting : Type 0 where
  pub sort : (Text × ℕ → Text × ℕ → Bool) → Log → Log
  pub perm : (less : Text × ℕ → Text × ℕ → Bool) (log : Log) → Permᴰ log (sort less log)
  pub ordered :
      (less : Text × ℕ → Text × ℕ → Bool) (log : Log)
      → IsStrictWeak less
      → IsSorted less (sort less log)

-- The comparison of the entries by their time.
unfoldable pub earlier : Text × ℕ → Text × ℕ → Bool
earlier a b = ltb a.1 b.1

-- `for (auto &p : logs) for (auto &log : *p) combined_logs.push_back(log)`
unfoldable pub push_logs : Log → List Log → Log
push_logs combined [] = combined
push_logs combined (log ∷ logs) = push_logs (combined ++ log) logs

-- `output_file << p.second << " " << p.first << std::endl`
unfoldable pub write_entry : Text × ℕ → Text
unfolding to_string
write_entry (text, time) = to_string time ++ (bytes " " ++ (text ++ bytes "\n"))

unfoldable pub write_entries : Log → Text
unfolding write_entry
write_entries [] = []
write_entries (entry ∷ log) = write_entry entry ++ write_entries log

module _ (s : Sorting) where
  unfoldable pub write_logs : Log → Text
  unfolding earlier write_entries
  write_logs combined = write_entries (s.sort earlier combined)

  -- The logs of the publishers, of the workers, of the strategy and of main.
  unfoldable pub dy_2_output : List Log → List Log → Log → Log → Text
  unfolding push_logs write_logs
  dy_2_output publishers workers strategy logger =
      write_logs ((push_logs (push_logs [] publishers) workers ++ strategy) ++ logger)

  -- The same loops in the other programs.
  unfoldable pub st_2_output : List Log → List Log → Log → Log → Text
  unfolding dy_2_output
  st_2_output = dy_2_output

  unfoldable pub arb_static_output : List Log → List Log → Log → Log → Text
  unfolding dy_2_output
  arb_static_output = dy_2_output

  unfoldable pub multi_static_output : List Log → List Log → Log → Log → Text
  unfolding dy_2_output
  multi_static_output = dy_2_output

  unfoldable pub multi_test_output : List Log → List Log → Log → Log → Text
  unfolding dy_2_output
  multi_test_output = dy_2_output

  unfoldable pub arb_test_output : List Log → List Log → Log → Log → Text
  unfolding dy_2_output
  arb_test_output = dy_2_output

  -- With the log of the MuExWorker.
  unfoldable pub muex_static_output : List Log → List Log → Log → Log → Log → Text
  unfolding push_logs write_logs
  muex_static_output publishers workers muex_worker strategy logger =
      write_logs
        (((push_logs (push_logs [] publishers) workers ++ muex_worker) ++ strategy) ++ logger)

  unfoldable pub muex_test_output : List Log → List Log → Log → Log → Log → Text
  unfolding muex_static_output
  muex_test_output = muex_static_output
