-- ===== src/ConnGen/Splitting.antt =====
-- `split_commas` of src/tools/conn_gen.cpp.
use market_networks.Base.{
  All, All-append, Bool-cases, List, Option, Option-cases, Text, [], ap, append-nil, append_assoc,
  arith, false, inl, inr, length, none, refl, some, suc, sym, true, zero, ℕ, ◌++◌, ◌<◌, ◌==◌, ◌∙◌,
  ◌∷◌, ◌≡◌,
}
use market_networks.ConnGen.{next_part, split_loop, split_commas}

-- No comma.
abbrev pub IsPart : Text → Type 0
IsPart t = All (λ c. (c == 44) ≡ false) t

abbrev pub join_commas : List Text → Text
join_commas [] = []
join_commas (p ∷ []) = p
join_commas (p ∷ q ∷ ps) = p ++ (44 ∷ join_commas (q ∷ ps))

-- The parts of a text, `part` being the piece of a part already seen.
abbrev parts : Text → Text → List Text
parts part [] = part ∷ []
parts part (c ∷ cs) = elim (c == 44) [
  | true ↦ part ∷ parts [] cs
  | false ↦ parts (part ++ c ∷ []) cs
]

parts-comma :
    (part : Text) (c : ℕ) (cs : Text) → (c == 44) ≡ true → parts part (c ∷ cs) ≡ part ∷ parts [] cs
parts-comma part c cs e = rw (parts, e) refl

parts-other :
    (part : Text) (c : ℕ) (cs : Text)
    → (c == 44) ≡ false
    → parts part (c ∷ cs) ≡ parts (part ++ c ∷ []) cs
parts-other part c cs e = rw (parts, e) refl

abbrev prefixed : Text → Option (Text × Text) → Text → List Text
prefixed part none text = (part ++ text) ∷ []
prefixed part (some (p, rest)) text = (part ++ p) ∷ parts [] rest

later-prefixed :
    (part : Text) (c : ℕ) (cs : Text) (o : Option (Text × Text))
    → prefixed (part ++ c ∷ []) o cs
      ≡ prefixed part (elim o [ none ↦ none | some (p, rest) ↦ some (c ∷ p, rest) ]) (c ∷ cs)
later-prefixed part c cs none = ap (λ x. x ∷ []) (append_assoc part (c ∷ []) cs)
later-prefixed part c cs (some (p, rest)) =
    ap (λ x. x ∷ parts [] rest) (append_assoc part (c ∷ []) p)

parts-next_part : (part text : Text) → parts part text ≡ prefixed part (next_part text) text
unfolding next_part
parts-next_part part [] = ap (λ x. x ∷ []) (sym (append-nil part))
parts-next_part part (c ∷ cs) = elim (Bool-cases (c == 44)) [
  | inl e ↦ parts-comma part c cs e ∙ rw e (ap (λ x. x ∷ parts [] cs) (sym (append-nil part)))
  | inr e ↦
      parts-other part c cs e
      ∙ rw e (parts-next_part (part ++ c ∷ []) cs ∙ later-prefixed part c cs (next_part cs))
]

next_part-length : (t part rest : Text) → next_part t ≡ some (part, rest) → length rest < length t
unfolding next_part
next_part-length [] part rest h = absurd (cc)
next_part-length (c ∷ cs) part rest h = elim (Bool-cases (c == 44)) [
  | inl e ↦ let same : rest ≡ cs = ground arith in omega (arith, ap length same)
  | inr e ↦ elim (Option-cases (next_part cs)) [
    | inl n ↦ absurd (ground arith)
    | inr ((p, r), n) ↦
        let same : rest ≡ r = ground arith in
        omega (arith, ap length same, next_part-length cs p r n)
  ]
]

split_loop-parts :
    (fuel : ℕ) (text : Text) → length text < fuel → split_loop fuel text ≡ parts [] text
unfolding split_loop
split_loop-parts zero text h = absurd (omega arith)
split_loop-parts (suc fuel) text h = elim (Option-cases (next_part text)) [
  | inl n ↦ rw (split_loop, n, parts-next_part [] text, n) refl
  | inr ((p, rest), n) ↦
      rw
        (
          split_loop,
          parts-next_part [] text,
          n,
          split_loop-parts fuel rest (omega (arith, next_part-length text p rest n)),
        )
        refl
]

split_commas-parts : (text : Text) → split_commas text ≡ parts [] text
unfolding split_commas
split_commas-parts text = split_loop-parts (suc (length text)) text (omega arith)

join-parts :
    (p part text : Text)
    → join_commas (p ∷ parts part text) ≡ p ++ (44 ∷ join_commas (parts part text))
join-parts p part [] = refl
join-parts p part (c ∷ cs) = elim (Bool-cases (c == 44)) [
  | inl e ↦ rw (parts-comma part c cs e) refl
  | inr e ↦ rw (parts-other part c cs e) (join-parts p (part ++ c ∷ []) cs)
]

parts-join : (part text : Text) → join_commas (parts part text) ≡ part ++ text
parts-join part [] = sym (append-nil part)
parts-join part (c ∷ cs) = elim (Bool-cases (c == 44)) [
  | inl e ↦
      let comma : c ≡ 44 = ground arith in
      rw (parts-comma part c cs e, join-parts part [] cs, parts-join [] cs, comma) refl
  | inr e ↦
      rw (parts-other part c cs e) (parts-join (part ++ c ∷ []) cs ∙ append_assoc part (c ∷ []) cs)
]

parts-IsPart : (part text : Text) → IsPart part → All IsPart (parts part text)
parts-IsPart part [] h = (h, tt)
parts-IsPart part (c ∷ cs) h = elim (Bool-cases (c == 44)) [
  | inl e ↦ rw (parts-comma part c cs e) (h, parts-IsPart [] cs tt)
  | inr e ↦
      rw (parts-other part c cs e)
        (parts-IsPart (part ++ c ∷ []) cs (All-append _ part (c ∷ []) h (e, tt)))
]

parts-part : (part p rest : Text) → IsPart p → parts part (p ++ rest) ≡ parts (part ++ p) rest
parts-part part [] rest h = ap (λ x. parts x rest) (sym (append-nil part))
parts-part part (c ∷ cs) rest h =
    parts-other part c (cs ++ rest) h.0
    ∙ (parts-part (part ++ c ∷ []) cs rest h.1
        ∙ ap (λ x. parts x rest) (append_assoc part (c ∷ []) cs))

parts-join_commas :
    (p : Text) (ps : List Text) → All IsPart (p ∷ ps) → parts [] (join_commas (p ∷ ps)) ≡ p ∷ ps
parts-join_commas p [] h = ap (parts []) (sym (append-nil p)) ∙ parts-part [] p [] h.0
parts-join_commas p (q ∷ ps) h =
    parts-part [] p (44 ∷ join_commas (q ∷ ps)) h.0 ∙ ap (◌∷◌ p) (parts-join_commas q ps h.1)

-- Splitting at the commas and joining with commas are inverse to each other: the parts of a text hold no
-- comma and join to that text, and any list of such parts but the empty one is what its join splits to.
pub split_commas-join_commas :
    (text p : Text) (ps : List Text)
    → All IsPart (p ∷ ps)
    → All IsPart (split_commas text)
      × (join_commas (split_commas text) ≡ text)
      × (split_commas (join_commas (p ∷ ps)) ≡ p ∷ ps)
split_commas-join_commas text p ps h =
    rw (split_commas-parts text, split_commas-parts (join_commas (p ∷ ps)))
      (parts-IsPart [] text tt, parts-join [] text, parts-join_commas p ps h)
