-- ===== src/Examples/Bytes.antt =====
-- The theorems on the wire, at archives that write a number below 2^32 xs one word.
use meta_dr.Prelude.{
  ℕ, zero, suc, ◌+◌, ◌*◌, ◌/◌, ◌%◌, ◌^◌, ◌≡◌, refl, ap, Bool, Option, none, some, List, [], ◌∷◌,
  ◌++◌, Text, All, length, take, drop, leb, if◌then◌else◌, arith, le→leb, ◌==◌, nat_eq,
}
use native.Mathlib.Nat.{div-add-mod}
use meta_dr.Config.Boot.{new_process}
use meta_dr.Types.{KvPair, ViewChangeInfo, do_view_change}
use meta_dr.Rpc.{deliver}
use meta_dr.Client.{sent_back}
use meta_dr.Wire.{Archive, Xdr, IsXdr, ReadsBack}
use meta_dr.Wire.Calls.{send, serve}
use meta_dr.Wire.Delivery.{serve-send}
use meta_dr.Wire.Api.{create, method, call, call-method, create-FitsOutcome}
use meta_dr.Examples.{fresh, calm, kept, text_a, text_x}

abbrev word : Archive ℕ
word = record {
  save = λ n rest. n ∷ rest;
  load = λ s. elim s [ [] ↦ none | n ∷ rest ↦ some (n, rest) ];
}

load_two : Text → Option (ℕ × Text)
load_two (a ∷ b ∷ rest) = some (2 ^ 32 * a + b, rest)
load_two _ = none

abbrev two_words : Archive ℕ
two_words = record { save = λ n rest. n / 2 ^ 32 ∷ n % 2 ^ 32 ∷ rest; load = load_two }

abbrev flag : Archive Bool
flag = record {
  save = λ b rest. (if b then 1 else 0) ∷ rest;
  load = λ s. elim s [ [] ↦ none | n ∷ rest ↦ some (n == 1, rest) ];
}

load_text : ℕ → Text → Option (Text × Text)
load_text bound [] = none
load_text bound (k ∷ s) = if leb k bound then some (take k s, drop k s) else none

abbrev text : ℕ → Archive Text
text bound = record { save = λ s rest. length s ∷ (s ++ rest); load = load_text bound }

module _ {A : Type 0} (c : Archive A) where
  save_all : List A → Text → Text
  save_all [] rest = rest
  save_all (a ∷ xs) rest = c.save a (save_all xs rest)

  load_all : ℕ → Text → Option (List A × Text)
  load_all zero s = some ([], s)
  load_all (suc k) s = elim (c.load s) [
    | none ↦ none
    | some p ↦ elim (load_all k p.1) [ none ↦ none | some q ↦ some (p.0 ∷ q.0, q.1) ]
  ]

  abbrev load_array : Text → Option (List A × Text)
  load_array [] = none
  load_array (k ∷ s) = load_all k s

  load_all-save_all :
      (P : A → Type 0)
      → ReadsBack c P
      → (xs : List A) (rest : Text) → All P xs
      → load_all (length xs) (save_all xs rest) ≡ some (xs, rest)
  unfolding load_all save_all
  load_all-save_all P l [] rest h = refl
  load_all-save_all P l (a ∷ xs) rest h =
      ground (arith, l a (save_all xs rest) h.0, load_all-save_all P l xs rest h.1)

abbrev words : Xdr
words = record {
  u32 = word;
  u64 = two_words;
  bool = flag;
  string = text;
  array = λ c. record { save = λ xs rest. length xs ∷ save_all c xs rest; load = load_array c };
}

take-append : (s t : Text) → take (length s) (s ++ t) ≡ s
take-append [] t = refl
take-append (c ∷ s) t = ap (◌∷◌ c) (take-append s t)

drop-append : (s t : Text) → drop (length s) (s ++ t) ≡ t
drop-append [] t = refl
drop-append (c ∷ s) t = drop-append s t

words-IsXdr : IsXdr words
unfolding load_two load_text
words-IsXdr = record {
  u32 = λ n rest h. refl;
  u64 = λ n rest h. ap (λ (k : ℕ). some (k, rest)) (omega (arith, div-add-mod n (2 ^ 32)));
  bool = λ b rest h. ground arith;
  string = λ bound fits s rest h.
      rw (le→leb (length s) bound h, take-append s rest, drop-append s rest) refl;
  array = λ c P l xs rest h. load_all-save_all c P l xs rest h.1;
}

abbrev info : ViewChangeInfo
info = record {
  view_num = 1;
  op_log = kept 1 ∷ kept 2 ∷ [];
  old_view_num = 0;
  op_num = 2;
  commit_num = 2;
  replica_id = 2;
}

serve-send_example :
    serve words 7 (send words (do_view_change info)) new_process
    ≡ some (deliver 7 (do_view_change info) new_process)
serve-send_example = serve-send words words-IsXdr 7 (do_view_change info) new_process (record {
  view_num = omega arith;
  op_log = (
    omega arith,
    (((omega arith, omega arith), omega arith), (((omega arith, omega arith), omega arith), tt)),
  );
  old_view_num = omega arith;
  op_num = omega arith;
  commit_num = omega arith;
  replica_id = omega arith;
})

abbrev pair : KvPair
pair = record { key = text_a; val = text_x }

call-method_example :
    call words calm (create pair) (fresh 0) ≡ sent_back (method calm (create pair) (fresh 0))
call-method_example =
    call-method words words-IsXdr calm (create pair) (fresh 0) (omega arith, omega arith)
      (create-FitsOutcome calm pair (fresh 0))
