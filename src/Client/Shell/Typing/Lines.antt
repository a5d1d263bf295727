-- ===== src/Client/Shell/Typing/Lines.antt =====
-- The lines that the user types to the loop of src/client_shell.cpp, over the rounds to come.
use market_networks.Base.{
  Bool-cases, List, Text, [], ap, append-nil, append_assoc, arith, false, if◌then◌else◌, inl, inr,
  keep-append, not, refl, sym, text_eq, true, ◌++◌, ◌||◌, ◌∙◌, ◌∷◌, ◌≡◌,
}
use market_networks.Network.Framing.{IsLine, drain_lines, drain_lines-append, drain_lines-IsLine}
use market_networks.Client.Shell.{Shell, Flow, Round}
use market_networks.Client.Shell.Forwarding.{until_quit, has_quit, commands, as_text}
use market_networks.Client.Shell.Typing.Rounds.{typed_text, ends_input, farewell, Reaches}

-- A partial line has no command in it.
commands-IsLine : (t : Text) → IsLine t → commands (drain_lines t).0 ≡ []
commands-IsLine t h = rw (drain_lines-IsLine t h)

until_quit-append :
    (a b : List Text)
    → until_quit (a ++ b) ≡ (if has_quit a then until_quit a else until_quit a ++ until_quit b)
until_quit-append [] b = refl
until_quit-append (l ∷ a) b = ground (arith, until_quit-append a b)

has_quit-append : (a b : List Text) → has_quit (a ++ b) ≡ (has_quit a || has_quit b)
has_quit-append [] b = refl
has_quit-append (l ∷ a) b = ground (arith, has_quit-append a b)

as_text-append : (a b : List Text) → as_text (a ++ b) ≡ as_text a ++ as_text b
as_text-append [] b = refl
as_text-append (l ∷ a) b =
    ap (λ x. (l ++ 10 ∷ []) ++ x) (as_text-append a b)
    ∙ sym (append_assoc (l ++ 10 ∷ []) (as_text a) (as_text b))

-- What the user types from here on, as the lines to send and the leave to take.
abbrev pub lines_of : Text → List Round → List Text
lines_of buffer rounds = commands (drain_lines (buffer ++ typed_text rounds)).0

abbrev pub Types : Shell → Text → List Round → Flow × Shell → Type 0
Types s buffer rounds r =
    Reaches s.wire (as_text (until_quit (lines_of buffer rounds)))
      (farewell (ends_input rounds) (lines_of buffer rounds)) r

-- The lines of a buffer, then those of what follows it.
module _ (buffer : Text) (rounds : List Round) where
  abbrev pub first : List Text
  first = commands (drain_lines buffer).0

  abbrev pub later : List Text
  later = lines_of (drain_lines buffer).1 rounds

  lines_of-append : lines_of buffer rounds ≡ first ++ later
  lines_of-append =
      let e = (drain_lines-append buffer (typed_text rounds)).0 in
      ap (λ (x : List Text × Text). commands x.0) e
      ∙ keep-append (λ l. not (text_eq l [])) (drain_lines buffer).0
          (drain_lines ((drain_lines buffer).1 ++ typed_text rounds)).0

  pub text-quit :
      has_quit first ≡ true
      → (as_text (until_quit (lines_of buffer rounds)) ≡ as_text (until_quit first))
        × (farewell (ends_input rounds) (lines_of buffer rounds) ≡ [])
  text-quit h = (
    ap as_text (ap until_quit lines_of-append ∙ until_quit-append first later ∙ rw h),
    ground (arith, lines_of-append, has_quit-append first later),
  )

  pub text-next :
      has_quit first ≡ false
      → (as_text (until_quit (lines_of buffer rounds))
          ≡ as_text (until_quit first) ++ as_text (until_quit later))
        × (farewell (ends_input rounds) (lines_of buffer rounds)
            ≡ farewell (ends_input rounds) later)
  text-next h = (
    ap as_text (ap until_quit lines_of-append ∙ until_quit-append first later ∙ rw h)
        ∙ as_text-append (until_quit first) (until_quit later),
    ground (arith, lines_of-append, has_quit-append first later),
  )

  pub text-first :
      (more : Text) × (as_text (until_quit (lines_of buffer rounds))
        ≡ as_text (until_quit first) ++ more)
  text-first = elim (Bool-cases (has_quit first)) [
    | inl h ↦ ([], (text-quit h).0 ∙ sym (append-nil _))
    | inr h ↦ (as_text (until_quit later), (text-next h).0)
  ]

-- What comes after something sent.
pub Reaches-after :
    (wire sent lines bye : Text) (w : Text) (r : Flow × Shell)
    → w ≡ wire ++ sent
    → Reaches w lines bye r
    → Reaches wire (sent ++ lines) bye r
Reaches-after wire sent lines bye w r e ((left, p), all) =
    let shift = λ (x : Text).
      ap (λ v. v ++ (lines ++ x)) e
      ∙ append_assoc wire sent (lines ++ x)
      ∙ ap (λ v. wire ++ v) (sym (append_assoc sent lines x)) in
    ((left, p ∙ shift bye), λ g. let (q, rest, f, h) = all g in (q, rest, f, h ∙ shift q))

-- Nothing more is typed, and nothing was.
pub silent :
    (s : Shell) (rounds : List Round)
    → IsLine s.stdin_buffer
    → typed_text rounds ≡ []
    → lines_of s.stdin_buffer rounds ≡ []
silent s rounds h e =
    ap (λ x. commands (drain_lines x).0)
      (ap (λ x. s.stdin_buffer ++ x) e ∙ append-nil s.stdin_buffer)
    ∙ commands-IsLine s.stdin_buffer h
