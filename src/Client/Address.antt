-- ===== src/Client/Address.antt =====
-- libClient/endPoint.cc and include/endPoint.h: an endpoint is written `ip:port` and read back.
use meta_dr.Prelude.{
  ℕ, ◌≡◌, refl, sym, ap, false, Option, none, some, [], ◌∷◌, ◌++◌, ◌==◌, nat_eq, if◌then◌else◌,
  Text, arith,
}
use meta_dr.Types.{EndPoint}
use meta_dr.Api.{contains}

-- `substr` on both sides of the first character `c`.
unfoldable pub break_at : ℕ → Text → Option (Text × Text)
break_at c [] = none
break_at c (d ∷ s) =
    let later = break_at c s in
    if d == c then some ([], s) else elim later [ none ↦ none | some p ↦ some (d ∷ p.0, p.1) ]

unfoldable end_point_of : Option (Text × Text) → Option EndPoint
end_point_of none = none
end_point_of (some p) = some (record { ip = p.0; port = p.1 })

-- The constructor from a string; `none` is `invalid_argument`.
unfoldable pub parse_end_point : Text → Option EndPoint
unfolding end_point_of
parse_end_point s = end_point_of (break_at b':' s)

-- The conversion to a string.
unfoldable pub show_end_point : EndPoint → Text
show_end_point ep = ep.ip ++ b':' ∷ ep.port

break_at-append :
    (c : ℕ) (s t : Text) → contains c s ≡ false → break_at c (s ++ c ∷ t) ≡ some (s, t)
unfolding break_at
break_at-append c [] t h = ground arith
break_at-append c (d ∷ s) t h = ground (arith, break_at-append c s t)

-- What `break_at` gives is the text in two parts, of which the first does not hold the character.
abbrev pub Broken : ℕ → Text → Option (Text × Text) → Type 0
Broken c s none = contains c s ≡ false
Broken c s (some p) = (s ≡ p.0 ++ c ∷ p.1) × (contains c p.0 ≡ false)

pub break_at-Broken : (c : ℕ) (s : Text) → Broken c s (break_at c s)
unfolding break_at
break_at-Broken c [] = refl
break_at-Broken c (d ∷ s) = ground (arith, break_at-Broken c s)

-- What the constructor makes of a text: it throws for one without a colon, and otherwise gives the
-- endpoint that is written as that text and has no colon in its address.
abbrev pub Reads : Text → Option EndPoint → Type 0
Reads s none = contains b':' s ≡ false
Reads s (some ep) = (show_end_point ep ≡ s) × (contains b':' ep.ip ≡ false)

Broken-Reads : (s : Text) (o : Option (Text × Text)) → Broken b':' s o → Reads s (end_point_of o)
unfolding show_end_point end_point_of
Broken-Reads s none h = h
Broken-Reads s (some p) h = (sym h.0, h.1)

-- The constructor throws exactly for a text without a colon, and otherwise gives an endpoint that is
-- written as that text; an endpoint with no colon in its address is read back from what is written.
parse_end_point-show_end_point :
    (s : Text) (ep : EndPoint)
    → contains b':' ep.ip ≡ false
    → Reads s (parse_end_point s) × (parse_end_point (show_end_point ep) ≡ some ep)
unfolding parse_end_point show_end_point end_point_of
parse_end_point-show_end_point s ep h = (
  Broken-Reads s (break_at b':' s) (break_at-Broken b':' s),
  ap end_point_of (break_at-append b':' ep.ip ep.port h),
)
