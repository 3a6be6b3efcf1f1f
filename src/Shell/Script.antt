-- ===== src/Shell/Script.antt =====
-- The loops of shell/shell.cc over the lines of a script and of the terminal.
use meta_dr.Prelude.{
  ℕ, zero, suc, ◌+◌, ◌≤◌, ◌<◌, ◌≡◌, ◌≢◌, refl, sym, ap, ◌∙◌, Bool, true, false, not, ◌&&◌, ◌||◌,
  none, some, Option, List, [], ◌∷◌, ◌++◌, ◌==◌, nat_eq, length, Text, arith, if◌then◌else◌,
  Bool-cases, inl, inr, ◌⊎◌,
}
use meta_dr.Api.{contains}
use meta_dr.Client.{Stub}
use meta_dr.Client.Address.{break_at}
use meta_dr.Shell.{
  Ending, printed, thrown, fails, exits, Stream, read_line, get_line, carry, dispatch_command,
  arguments, split_arguments, execute, run_script, prompt,
}

-- Every line has at most 255 characters, the first one at most `k`.
unfoldable pub lines_fit : ℕ → Text → Bool
lines_fit k [] = true
lines_fit zero (c ∷ s) = let rest = lines_fit 255 s in c == b'\n' && rest
lines_fit (suc k) (c ∷ s) =
    let rest = lines_fit 255 s in let more = lines_fit k s in if c == b'\n' then rest else more

-- What is left to read: at its end, or shorter than before.
record Reading (len : ℕ) (st : Stream) : Type 0 where
  good : st.fail ≡ false
  fit : lines_fit 255 st.rest ≡ true
  less : (st.eof ≡ true) ⊎ (length st.rest < len)

read_line-Reading : (k : ℕ) (s : Text) → lines_fit k s ≡ true → Reading (length s) (read_line k s).1
unfolding read_line lines_fit
read_line-Reading k [] h = record { good = refl; fit = refl; less = inl refl }
read_line-Reading zero (c ∷ s) h = elim (Bool-cases (c == b'\n')) [
  | inl q ↦ rw q (record { good = refl; fit = ground arith; less = inr (omega arith) })
  | inr q ↦ ground arith
]
read_line-Reading (suc k) (c ∷ s) h = elim (Bool-cases (c == b'\n')) [
  | inl q ↦ rw q (record { good = refl; fit = ground arith; less = inr (omega arith) })
  | inr q ↦
      let d = read_line-Reading k s (ground arith) in
      rw q (record { good = d.good; fit = d.fit; less = ground (arith, d.less) })
]

get_line-Reading :
    (fin : Stream)
    → fin.eof ≡ false
    → fin.fail ≡ false
    → lines_fit 255 fin.rest ≡ true
    → Reading (length fin.rest) (get_line 255 fin).1
unfolding get_line
get_line-Reading fin e f h = rw (e, f) (read_line-Reading 255 fin.rest h)

abbrev Returns : {S : Type 0} → Option (List Ending × S) → Type 0
Returns {S} o = (r : List Ending × S) × (o ≡ some r)

carry-Returns :
    {S : Type 0} (e : Ending × S) (o : Option (List Ending × S)) → Returns o → Returns (carry e o)
carry-Returns (printed ls, t) none (r, q) = ground arith
carry-Returns (printed ls, t) (some r) q = ((printed ls ∷ r.0, r.1), refl)
carry-Returns (thrown, t) o q = ((thrown ∷ [], t), refl)
carry-Returns (fails, t) o q = ((fails ∷ [], t), refl)
carry-Returns (exits, t) o q = ((exits ∷ [], t), refl)

choose :
    {A : Type 0} (P : A → Type 0) (x y : A) (b : Bool)
    → (b ≡ true → P x)
    → (b ≡ false → P y)
    → P (if b then x else y)
choose P x y true h k = h refl
choose P x y false h k = k refl

module _ {S : Type 0} (stub : Stub S) where
  run_script-Returns :
      (fuel : ℕ) (fin : Stream) (s : S)
      → 1 ≤ fuel
      → fin.fail ≡ false
      → lines_fit 255 fin.rest ≡ true
      → (fin.eof ≡ true) ⊎ (length fin.rest + 2 ≤ fuel)
      → Returns (run_script stub fuel fin s)
  unfolding run_script
  run_script-Returns zero fin s b f h e = absurd (omega arith)
  run_script-Returns (suc fuel) fin s b f h e =
      let (line, next) = get_line 255 fin in
      let (ending, t) = dispatch_command stub line s in
      choose Returns _ _ fin.eof (λ q. (([], s), refl))
        λ q.
          let d = get_line-Reading fin q f h in
          carry-Returns (ending, t) (run_script stub fuel next t)
            (run_script-Returns fuel next t (ground arith) d.good d.fit (ground (arith, d.less)))

  -- The loop over a script ends, with the fuel given, if no line is longer than 255 characters.
  pub run_script-returns :
      (text : Text) (s : S)
      → lines_fit 255 text ≡ true
      → (r : List Ending × S) × (run_script stub
            (length text + 2)
            (record { rest = text; eof = false; fail = false })
            s
          ≡ some r)
  run_script-returns text s h =
      run_script-Returns (length text + 2) (record { rest = text; eof = false; fail = false }) s
        (omega arith) refl h (inr (omega arith))

-- A line that the stream ends or fails in, or a stream that is shorter than before.
read_line-moves :
    (k : ℕ) (s : Text)
    → let st = (read_line k s).1 in ((st.eof || st.fail) ≡ true) ⊎ (length st.rest < length s)
unfolding read_line
read_line-moves k [] = inl refl
read_line-moves zero (c ∷ s) = elim (Bool-cases (c == b'\n')) [
  | inl q ↦ rw q (inr (omega arith))
  | inr q ↦ rw q (inl refl)
]
read_line-moves (suc k) (c ∷ s) = elim (Bool-cases (c == b'\n')) [
  | inl q ↦ rw q (inr (omega arith))
  | inr q ↦ rw q (ground (arith, read_line-moves k s))
]

get_line-moves :
    (k : ℕ) (st : Stream)
    → (not st.eof && not st.fail) ≡ true
    → let next = (get_line k st).1 in
      ((next.eof || next.fail) ≡ true) ⊎ (length next.rest < length st.rest)
unfolding get_line
get_line-moves k st h =
    let e : st.eof ≡ false = ground arith in
    let f : st.fail ≡ false = ground arith in rw (e, f) (read_line-moves k st.rest)

module _ {S : Type 0} (stub : Stub S) where
  prompt-Returns :
      (fuel : ℕ) (cin : Stream) (s : S)
      → 1 ≤ fuel
      → ((cin.eof || cin.fail) ≡ true) ⊎ (length cin.rest + 2 ≤ fuel)
      → Returns (prompt stub fuel cin s)
  unfolding prompt
  prompt-Returns zero cin s b e = absurd (omega arith)
  prompt-Returns (suc fuel) cin s b e =
      let (line, next) = get_line 255 cin in
      let (ending, t) = dispatch_command stub line s in
      choose Returns _ _ (not cin.eof && not cin.fail)
        (λ q.
          let d = get_line-moves 255 cin q in
          carry-Returns (ending, t) (prompt stub fuel next t)
            (prompt-Returns fuel next t (ground arith) (ground (arith, d))))
        (λ q. (([], s), refl))

  -- The loop over the lines of the terminal ends for every input that ends, with the fuel given.
  pub prompt-returns :
      (text : Text) (s : S)
      → (r : List Ending × S) × (prompt stub
            (length text + 2)
            (record { rest = text; eof = false; fail = false })
            s
          ≡ some r)
  prompt-returns text s =
      prompt-Returns (length text + 2) (record { rest = text; eof = false; fail = false }) s
        (omega arith) (inr (omega arith))

  dispatch_command-empty : (s : S) → dispatch_command stub [] s ≡ (printed [], s)
  unfolding dispatch_command arguments split_arguments execute break_at
  dispatch_command-empty s = refl

  failed_stream :
      (fuel : ℕ) (rest : Text) (s : S)
      → run_script stub fuel (record { rest = rest; eof = false; fail = true }) s ≡ none
  unfolding run_script get_line
  failed_stream zero rest s = refl
  failed_stream (suc fuel) rest s =
      ap
        (λ (e : Ending × S).
          carry e (run_script stub fuel (record { rest = rest; eof = false; fail = true }) s))
        (dispatch_command-empty s)
      ∙ ap (carry (printed [], s)) (failed_stream fuel rest s)

read_line-long :
    (l : Text) (c : ℕ) (rest : Text)
    → contains b'\n' l ≡ false
    → (c == b'\n') ≡ false
    → read_line (length l) (l ++ c ∷ rest)
      ≡ (l, record { rest = c ∷ rest; eof = false; fail = true })
unfolding read_line
read_line-long [] c rest h q = rw q refl
read_line-long (d ∷ l) c rest h q = ground (arith, read_line-long l c rest)

-- The stream of a file that cannot be opened.
abbrev pub unopened : Stream
unopened = record { rest = []; eof = false; fail = true }

-- The loop over a script does not end, whatever the fuel, if the file cannot be opened. Neither does
-- it if the first line is longer than 255 characters and the command that is read from the first 255
-- characters prints.
pub run_script-stuck :
    {S : Type 0} (stub : Stub S) (fuel : ℕ) (l : Text) (c : ℕ) (rest : Text) (s t : S)
    (ls : List Text)
    → length l ≡ 255
    → contains b'\n' l ≡ false
    → c ≢ b'\n'
    → dispatch_command stub l s ≡ (printed ls, t)
    → (run_script stub fuel unopened s ≡ none)
      × (run_script stub fuel (record { rest = l ++ c ∷ rest; eof = false; fail = false }) s ≡ none)
unfolding run_script get_line
run_script-stuck stub zero l c rest s t ls len h q d = (refl, refl)
run_script-stuck stub (suc fuel) l c rest s t ls len h q d =
    let read : read_line 255 (l ++ c ∷ rest)
        ≡ (l, record { rest = c ∷ rest; eof = false; fail = true }) =
      ap (λ k. read_line k (l ++ c ∷ rest)) (sym len) ∙ read_line-long l c rest h (ground arith) in
    (failed_stream stub (suc fuel) [] s, rw (read, d, failed_stream stub fuel (c ∷ rest) t) refl)
