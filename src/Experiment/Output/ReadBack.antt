-- ===== src/Experiment/Output/ReadBack.antt =====
-- The output files of the programs, read back.
use mathlib.Core.Path.{subst}
use mathlib.Core.List.{append_assoc, append-nil}
use deadline_driven_enhancem.Base.{
  ℕ, ◌+◌, ◌-◌, ◌*◌, ◌≡◌, ◌≢◌, refl, ap, sym, ◌∙◌, Bool, true, false, List, [], ◌∷◌, ◌++◌, Permᴰ,
  arith, ◌==◌, All, All-perm, All-append,
}
use deadline_driven_enhancem.TestNodes.{Text, Log, to_string}
use deadline_driven_enhancem.TestNodes.Decimal.{value, value-to_string, IsDigit, to_string-IsDigit}
use deadline_driven_enhancem.Experiment.Output.{
  IsStrictWeak, IsSorted, Sorting, earlier, push_logs, write_entry, write_entries, write_logs,
  muex_static_output, dy_2_output, st_2_output, arb_static_output, multi_static_output,
  multi_test_output, arb_test_output, muex_test_output,
}

-- A reader of such a file: digits up to a space, then a text up to the end of the line. In a text,
-- `in_text` is true and `text` holds what was read of it.
unfoldable read : Bool → ℕ → Text → Text → Log
read in_text time text [] = []
read true time text (c ∷ cs) = elim (c == 10) [
  | true ↦ (text, time) ∷ read false 0 [] cs
  | false ↦ read true time (text ++ (c ∷ [])) cs
]
read false time text (c ∷ cs) = elim (c == 32) [
  | true ↦ read true time [] cs
  | false ↦ read false (time * 10 + (c - b'0')) [] cs
]

pub read_entries : Text → Log
unfolding read
read_entries cs = read false 0 [] cs

read-digits :
    (acc : ℕ) (ds rest : Text)
    → All IsDigit ds
    → read false acc [] (ds ++ (32 ∷ rest)) ≡ read true (value acc ds) [] rest
unfolding read
read-digits acc [] rest h = refl
read-digits acc (d ∷ ds) rest (digit, h) =
    let other : (d == 32) ≡ false = ground (arith, digit) in
    rw (other, read) (read-digits (acc * 10 + (d - b'0')) ds rest h)

-- A text without an end of line.
abbrev pub IsLine : Text → Type 0
IsLine text = All (λ c. c ≢ 10) text

read-text :
    (time : ℕ) (before text rest : Text)
    → IsLine text
    → read true time before (text ++ (10 ∷ rest)) ≡ (before ++ text, time) ∷ read false 0 [] rest
unfolding read
read-text time before [] rest h =
    ap (λ t. (t, time) ∷ read false 0 [] rest) (sym (append-nil before))
read-text time before (c ∷ text) rest (ne, h) =
    let other : (c == 10) ≡ false = ground (arith, ne) in
    rw (other, read)
      (read-text time (before ++ (c ∷ [])) text rest h
        ∙ ap (λ t. (t, time) ∷ read false 0 [] rest) (append_assoc before (c ∷ []) text))

abbrev pub AreLines : Log → Type 0
AreLines log = All (λ p. IsLine p.0) log

read-write_entries : (log : Log) → AreLines log → read_entries (write_entries log) ≡ log
unfolding read_entries write_entries write_entry read
read-write_entries [] h = refl
read-write_entries ((text, time) ∷ log) (line, h) =
    ap (read false 0 []) (
      append_assoc (to_string time) (32 ∷ (text ++ (10 ∷ []))) (write_entries log)
      ∙ ap (λ t. to_string time ++ (32 ∷ t)) (append_assoc text (10 ∷ []) (write_entries log)))
    ∙ read-digits 0 (to_string time) (text ++ (10 ∷ write_entries log)) (to_string-IsDigit time)
    ∙ read-text (value 0 (to_string time)) [] text (write_entries log) line
    ∙ ap (λ n. (text, n) ∷ read false 0 [] (write_entries log)) (value-to_string time)
    ∙ ap (λ l. (text, time) ∷ l) (read-write_entries log h)

-- A file with one line for each of these entries, in the order of their times.
pub record IsFile (entries : Log) (file : Text) : Type 0 where
  pub all : Permᴰ entries (read_entries file)
  pub sorted : IsSorted earlier (read_entries file)

earlier-IsStrictWeak : IsStrictWeak earlier
unfolding earlier
earlier-IsStrictWeak = record {
  asymmetric = λ a b h. ground arith;
  transitive = λ a b c h k. ground arith;
}

write_logs-IsFile : (s : Sorting) (log : Log) → AreLines log → IsFile log (write_logs s log)
unfolding write_logs
write_logs-IsFile s log lines =
    let back =
      read-write_entries (s.sort earlier log)
        (All-perm (λ p. IsLine p.0) (s.perm earlier log) lines) in
    record {
      all = subst (Permᴰ log) (sym back) (s.perm earlier log);
      sorted = subst (IsSorted earlier) (sym back) (s.ordered earlier log earlier-IsStrictWeak);
    }

-- All entries of some logs.
abbrev pub entries : List Log → Log
entries [] = []
entries (log ∷ logs) = log ++ entries logs

push_logs-lem :
    (combined : Log) (logs : List Log) → push_logs combined logs ≡ combined ++ entries logs
unfolding push_logs
push_logs-lem combined [] = sym (append-nil combined)
push_logs-lem combined (log ∷ logs) =
    push_logs-lem (combined ++ log) logs ∙ append_assoc combined log (entries logs)

entries-append : (ls ms : List Log) → entries (ls ++ ms) ≡ entries ls ++ entries ms
entries-append [] ms = refl
entries-append (log ∷ ls) ms =
    ap (λ l. log ++ l) (entries-append ls ms) ∙ sym (append_assoc log (entries ls) (entries ms))

entries-AreLines : (logs : List Log) → All AreLines logs → AreLines (entries logs)
entries-AreLines [] h = tt
entries-AreLines (log ∷ logs) (here, rest) =
    All-append _ log (entries logs) here (entries-AreLines logs rest)

-- What the loops of main put together.
together :
    (publishers workers : List Log) (rest : Log)
    → push_logs (push_logs [] publishers) workers ++ rest
      ≡ entries ((publishers ++ workers) ++ (rest ∷ []))
together publishers workers rest =
    ap (λ l. l ++ rest)
      (push_logs-lem (push_logs [] publishers) workers
        ∙ ap (λ l. l ++ entries workers) (push_logs-lem [] publishers)
        ∙ sym (entries-append publishers workers))
    ∙ ap (λ l. entries (publishers ++ workers) ++ l) (sym (append-nil rest))
    ∙ sym (entries-append (publishers ++ workers) (rest ∷ []))

ended :
    (logs : List Log) (rest log : Log)
    → entries (logs ++ (rest ∷ [])) ++ log ≡ entries (logs ++ (rest ∷ log ∷ []))
ended logs rest log =
    ap (λ l. l ++ log) (entries-append logs (rest ∷ []))
    ∙ append_assoc (entries logs) (rest ++ []) log
    ∙ ap (λ l. entries logs ++ l)
        (append_assoc rest [] log ∙ ap (λ l. rest ++ l) (sym (append-nil log)))
    ∙ sym (entries-append logs (rest ∷ log ∷ []))

module _ (s : Sorting) (publishers workers : List Log) (strategy logger : Log) where
  abbrev pub plain_logs : List Log
  plain_logs = (publishers ++ workers) ++ (strategy ∷ logger ∷ [])

  abbrev pub muex_logs : Log → List Log
  muex_logs muex_worker = (publishers ++ workers) ++ (muex_worker ∷ strategy ∷ logger ∷ [])

  -- Where no text of a log has an end of line: what dy_2, st_2, arb_static, multi_static1,
  -- multi_test and arb_test write can be read back, line by line, into every entry of the logs of
  -- the publishers, the workers, the strategy and main, each as often as it was logged, in the
  -- order of their times.
  pub output-IsFile :
      All AreLines plain_logs
      → IsFile (entries plain_logs) (dy_2_output s publishers workers strategy logger)
        × IsFile (entries plain_logs) (st_2_output s publishers workers strategy logger)
        × IsFile (entries plain_logs) (arb_static_output s publishers workers strategy logger)
        × IsFile (entries plain_logs) (multi_static_output s publishers workers strategy logger)
        × IsFile (entries plain_logs) (multi_test_output s publishers workers strategy logger)
        × IsFile (entries plain_logs) (arb_test_output s publishers workers strategy logger)
  unfolding dy_2_output st_2_output arb_static_output multi_static_output multi_test_output
      arb_test_output
  output-IsFile lines =
      let logs = plain_logs in
      let same =
        ap (λ l. l ++ logger) (together publishers workers strategy)
        ∙ ended (publishers ++ workers) strategy logger in
      let file =
        subst (λ l. IsFile (entries logs) (write_logs s l)) (sym same)
          (write_logs-IsFile s (entries logs) (entries-AreLines logs lines)) in
      (file, file, file, file, file, file)

  -- Where no text of a log has an end of line: what muex_static1 and muex_test write can be read
  -- back, line by line, into every entry of the logs of the publishers, the workers, the
  -- MuExWorker, the strategy and main, each as often as it was logged, in the order of their times.
  pub muex_output-IsFile :
      (muex_worker : Log)
      → All AreLines (muex_logs muex_worker)
      → IsFile
          (entries (muex_logs muex_worker))
          (muex_static_output s publishers workers muex_worker strategy logger)
        × IsFile
            (entries (muex_logs muex_worker))
            (muex_test_output s publishers workers muex_worker strategy logger)
  unfolding muex_static_output muex_test_output
  muex_output-IsFile muex_worker lines =
      let logs = muex_logs muex_worker in
      let all : ((push_logs (push_logs [] publishers) workers ++ muex_worker) ++ strategy) ++ logger
          ≡ entries logs =
        ap (λ l. (l ++ strategy) ++ logger) (together publishers workers muex_worker)
        ∙ append_assoc (entries ((publishers ++ workers) ++ (muex_worker ∷ []))) strategy logger
        ∙ ended (publishers ++ workers) muex_worker (strategy ++ logger)
        ∙ entries-append (publishers ++ workers) (muex_worker ∷ (strategy ++ logger) ∷ [])
        ∙ ap (λ l. entries (publishers ++ workers) ++ (muex_worker ++ l))
            (append-nil (strategy ++ logger) ∙ ap (λ l. strategy ++ l) (sym (append-nil logger)))
        ∙ sym (entries-append (publishers ++ workers) (muex_worker ∷ strategy ∷ logger ∷ [])) in
      let file =
        subst (λ l. IsFile (entries logs) (write_logs s l)) (sym all)
          (write_logs-IsFile s (entries logs) (entries-AreLines logs lines)) in
      (file, file)
