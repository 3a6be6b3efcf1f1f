-- ===== src/Config/EndPoints.antt =====
-- The endpoints of a configuration, written with commas between them, are read back.
use meta_dr.Prelude.{
  ℕ, ◌≡◌, ◌≢◌, refl, sym, ap, ◌∙◌, Bool, true, false, not, ◌||◌, List, [], ◌∷◌, ◌++◌, map, ◌==◌,
  nat_eq, text_eq, Text, arith, All,
}
use mathlib.Core.List.{append_assoc, append-nil}
use meta_dr.Prelude.Exec.{done}
use meta_dr.Types.{EndPoint}
use meta_dr.Api.{contains}
use meta_dr.Config.{trim, split, pair_of, UserInput, add_end_points}
use meta_dr.Config.Words.{IsWord, IsWord-append, contains-append, join, split-join}
use meta_dr.Config.Parse.{IsField, split_pair, trim_word, not-nil}

-- `ip:port`
abbrev pub print_end_point : EndPoint → Text
print_end_point e = join b':' e.ip (e.port ∷ [])

abbrev pub lacks : Text → Bool
lacks s = not (contains b':' s || contains b',' s || contains b'=' s || contains b'\n' s)

-- A word without the characters that the format uses.
abbrev pub IsPlain : Text → Type 0
IsPlain s = IsWord s × (lacks s ≡ true)

abbrev pub IsPlainEndPoint : EndPoint → Type 0
IsPlainEndPoint e = IsPlain e.ip × IsPlain e.port

pub end_point-IsField : (e : EndPoint) → IsPlainEndPoint e → IsField b',' (print_end_point e)
end_point-IsField e h = (
  IsWord-append e.ip (b':' ∷ []) e.port h.0.0 h.1.0,
  ground (arith, contains-append b',' e.ip (b':' ∷ e.port), h.0.1, h.1.1),
)

pub add_end_points-print :
    (es : List EndPoint) (u : UserInput)
    → All IsPlainEndPoint es
    → add_end_points (map print_end_point es) u
      ≡ (done tt, record u { end_points = u.end_points ++ es })
unfolding add_end_points pair_of
add_end_points-print [] u h = rw append-nil
add_end_points-print (e ∷ es) u h =
    let one =
      split_pair b':' 0 0 e.ip e.port refl (h.0.0.0, ground (arith, h.0.0.1))
        (h.0.1.0, ground (arith, h.0.1.1)) in
    let pair : split (print_end_point e) b':' ≡ e.ip ∷ e.port ∷ [] =
      ap (λ (a : Text). split (a ++ b':' ∷ e.port) b':') (sym (append-nil e.ip)) ∙ one in
    ground (
      arith,
      pair,
      add_end_points-print es (record u { end_points = u.end_points ++ e ∷ [] }) h.1,
      append_assoc u.end_points (e ∷ []) es,
    )

pub join-IsWord :
    (delim : ℕ) (p : Text) (ps : List Text) → All IsWord (p ∷ ps) → IsWord (join delim p ps)
join-IsWord delim p [] h = h.0
join-IsWord delim p (q ∷ qs) h =
    IsWord-append p (delim ∷ []) (join delim q qs) h.0 (join-IsWord delim q qs h.1)

pub join-lacks :
    (c delim : ℕ) (p : Text) (ps : List Text)
    → (delim == c) ≡ false
    → All (λ s. contains c s ≡ false) (p ∷ ps)
    → contains c (join delim p ps) ≡ false
join-lacks c delim p [] d h = h.0
join-lacks c delim p (q ∷ qs) d h =
    ground (arith, contains-append c p (delim ∷ join delim q qs), join-lacks c delim q qs d h.1)

pub All-end_points :
    (P : Text → Type 0) (es : List EndPoint)
    → ((e : EndPoint) → IsPlainEndPoint e → P (print_end_point e))
    → All IsPlainEndPoint es
    → All P (map print_end_point es)
All-end_points P [] f h = tt
All-end_points P (e ∷ es) f h = (f e h.0, All-end_points P es f h.1)

pub end_point-lacks :
    (c : ℕ)
    → (c == b'=' || c == b'\n') ≡ true
    → (e : EndPoint) → IsPlainEndPoint e
    → contains c (print_end_point e) ≡ false
end_point-lacks c k e h = ground (arith, contains-append c e.ip (b':' ∷ e.port), h.0.1, h.1.1)

pub map-trim_word : (ps : List Text) → All IsWord ps → map trim ps ≡ ps
map-trim_word [] h = refl
map-trim_word (p ∷ ps) h = ground (arith, trim_word p h.0, map-trim_word ps h.1)

pub split-end_points :
    (e : EndPoint) (es : List EndPoint)
    → All IsPlainEndPoint (e ∷ es)
    → split (join b',' (print_end_point e) (map print_end_point es)) b','
      ≡ map print_end_point (e ∷ es)
split-end_points e es h =
    split-join b',' (print_end_point e) (map print_end_point es) (
      All-end_points (λ q. (q ≢ []) × (contains b',' q ≡ false)) (e ∷ es)
        (λ d k. let f = end_point-IsField d k in (not-nil (print_end_point d) f.0, f.1)) h)
    ∙ map-trim_word (map print_end_point (e ∷ es))
        (All-end_points IsWord (e ∷ es) (λ d k. (end_point-IsField d k).0) h)
