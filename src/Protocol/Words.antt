-- ===== src/Protocol/Words.antt =====
-- The word extraction that `parse` of src/protocol/message_parser.cpp does with
-- `std::istringstream >> token`: words are separated by the white space of the C locale.
use market_networks.Base.{
  All, All-append, Bool, Bool-cases, List, Text, [], ap, append-nil, append_assoc, false, inl, inr,
  leb, refl, sym, true, ℕ, ◌&&◌, ◌++◌, ◌==◌, ◌||◌, ◌∙◌, ◌∷◌, ◌≡◌, ◌≢◌,
}

-- std::isspace in the C locale: tab, newline, vertical tab, form feed, return and space.
unfoldable pub is_space : ℕ → Bool
is_space c = (leb 9 c && leb c 13) || c == 32

unfoldable pub emit : Text → List Text → List Text
emit [] rest = rest
emit (c ∷ cs) rest = (c ∷ cs) ∷ rest

-- The words of what is still to be read, `token` being the part of a word already read.
unfoldable pub words_from : Text → Text → List Text
words_from token [] = emit token []
words_from token (c ∷ cs) = elim (is_space c) [
  | true ↦ emit token (words_from [] cs)
  | false ↦ words_from (token ++ c ∷ []) cs
]

unfoldable pub words : Text → List Text
unfolding words_from emit is_space
words line = words_from [] line

abbrev pub IsSolid : Text → Type 0
IsSolid t = All (λ c. is_space c ≡ false) t

-- A word is not empty and holds no white space.
abbrev pub IsWord : Text → Type 0
IsWord t = (t ≢ []) × IsSolid t

emit-IsWord :
    (token : Text) (rest : List Text)
    → IsSolid token
    → All IsWord rest
    → All IsWord (emit token rest)
unfolding emit
emit-IsWord [] rest h r = r
emit-IsWord (c ∷ cs) rest h r = (((λ e. cc), h), r)

words_from-IsWord : (token line : Text) → IsSolid token → All IsWord (words_from token line)
unfolding words_from
words_from-IsWord token [] h = emit-IsWord token [] h tt
words_from-IsWord token (c ∷ cs) h = elim (Bool-cases (is_space c)) [
  | inl e ↦ rw (e, words_from) (emit-IsWord token (words_from [] cs) h (words_from-IsWord [] cs tt))
  | inr e ↦
      rw (e, words_from)
        (words_from-IsWord (token ++ c ∷ []) cs (All-append _ token (c ∷ []) h (e, tt)))
]

pub words-IsWord : (line : Text) → All IsWord (words line)
unfolding words
words-IsWord line = words_from-IsWord [] line tt

-- Words joined by single spaces.
abbrev pub join_words : List Text → Text
join_words [] = []
join_words (w ∷ []) = w
join_words (w ∷ v ∷ ws) = w ++ (32 ∷ join_words (v ∷ ws))

words_from-append :
    (token w rest : Text) → IsSolid w → words_from token (w ++ rest) ≡ words_from (token ++ w) rest
unfolding words_from
words_from-append token [] rest h = rw append-nil
words_from-append token (c ∷ cs) rest h =
    rw (h.0, words_from)
      (words_from-append (token ++ c ∷ []) cs rest h.1
        ∙ ap (λ t. words_from t rest) (append_assoc token (c ∷ []) cs))

emit-cons : (w : Text) (rest : List Text) → w ≢ [] → emit w rest ≡ w ∷ rest
unfolding emit
emit-cons [] rest h = absurd (h refl)
emit-cons (c ∷ cs) rest h = refl

-- Reading the words of a line that was joined from words gives those words back.
pub words-join_words : (ws : List Text) → All IsWord ws → words (join_words ws) ≡ ws
unfolding words
words-join_words [] h = refl
words-join_words (w ∷ []) h =
    ap (words_from []) (sym (append-nil w)) ∙ words_from-append [] w [] h.0.1 ∙ emit-cons w [] h.0.0
words-join_words (w ∷ v ∷ ws) h =
    words_from-append [] w (32 ∷ join_words (v ∷ ws)) h.0.1
    ∙ emit-cons w (words (join_words (v ∷ ws))) h.0.0
    ∙ ap (◌∷◌ w) (words-join_words (v ∷ ws) h.1)
