-- ===== src/Network/Framing.antt =====
-- Reassembly of messages from a byte stream, as src/exchange_server.cpp (`consume_messages`),
-- src/network/tcp_client.cpp (`receive_messages`) and src/client_shell.cpp do it: find a newline, cut
-- the line off, drop a carriage return at its end.
pub mod Cuts
use market_networks.Base.{
  All, All-append, Bool-cases, List, Option, Option-cases, Text, [], ap, append-nil, append_assoc,
  arith, false, if◌then◌else◌, inl, inr, length, none, refl, some, suc, sym, true, zero, ℕ, ◌++◌,
  ◌<◌, ◌==◌, ◌∙◌, ◌∷◌, ◌≡◌, ◌⊎◌,
}

-- `find('\n')`, `substr(0, newline)` and `erase(0, newline + 1)`: the line and what follows it.
unfoldable pub next_line : Text → Option (Text × Text)
next_line [] = none
next_line (c ∷ cs) =
    let later = next_line cs in
    if c == 10
    then some ([], cs)
    else elim later [ none ↦ none | some (line, rest) ↦ some (c ∷ line, rest) ]

-- `if (!line.empty() && line.back() == '\r') line.pop_back();`
unfoldable pub strip_return : Text → Text
strip_return [] = []
strip_return (c ∷ []) = if c == 13 then [] else c ∷ []
strip_return (c ∷ d ∷ cs) = c ∷ strip_return (d ∷ cs)

-- The loop, on fuel: the messages in the buffer, and what is left in it.
take_lines : ℕ → Text → List Text × Text
take_lines zero inbuf = ([], inbuf)
take_lines (suc fuel) inbuf = elim (next_line inbuf) [
  | none ↦ ([], inbuf)
  | some (line, rest) ↦
      let (lines, left) = take_lines fuel rest in (strip_return line ∷ lines, left)
]

-- Each round shortens the buffer.
unfoldable pub drain_lines : Text → List Text × Text
unfolding take_lines next_line strip_return
drain_lines inbuf = take_lines (suc (length inbuf)) inbuf

-- The messages of a stream, byte by byte, `line` being the part of a message already seen.
abbrev pub frames : Text → Text → List Text × Text
frames line [] = ([], line)
frames line (c ∷ cs) = elim (c == 10) [
  | true ↦ let (lines, left) = frames [] cs in (strip_return line ∷ lines, left)
  | false ↦ frames (line ++ c ∷ []) cs
]

-- No newline.
abbrev pub IsLine : Text → Type 0
IsLine t = All (λ c. (c == 10) ≡ false) t

abbrev Cut : ℕ → Text → Text → Text → Type 0
Cut c cs line rest =
    ((c == 10) ≡ true) × (line ≡ []) × (rest ≡ cs)
    ⊎ ((c == 10) ≡ false) × (l : Text) × (line ≡ c ∷ l) × (next_line cs ≡ some (l, rest))

-- How `next_line` comes to its answer.
next_line-Cut :
    (c : ℕ) (cs line rest : Text) → next_line (c ∷ cs) ≡ some (line, rest) → Cut c cs line rest
unfolding next_line
next_line-Cut c cs line rest h = elim (Bool-cases (c == 10)) [
  | inl e ↦ inl (e, ground arith, ground arith)
  | inr e ↦ elim (Option-cases (next_line cs)) [
    | inl n ↦ absurd (ground arith)
    | inr (p, n) ↦ inr (e, p.0, ground arith, ground arith)
  ]
]

next_line-none-IsLine : (t : Text) → next_line t ≡ none → IsLine t
unfolding next_line
next_line-none-IsLine [] h = tt
next_line-none-IsLine (c ∷ cs) h = (ground arith, next_line-none-IsLine cs (ground arith))

pub next_line-length :
    (t line rest : Text) → next_line t ≡ some (line, rest) → length rest < length t
next_line-length [] line rest h = unfold next_line in cc
next_line-length (c ∷ cs) line rest h = elim (next_line-Cut c cs line rest h) [
  | inl (_, _, e) ↦ omega (arith, ap length e)
  | inr (_, l, _, e) ↦ omega (arith, next_line-length cs l rest e)
]

-- Bytes with no newline only lengthen the line.
pub frames-IsLine-append :
    (line t rest : Text) → IsLine t → frames line (t ++ rest) ≡ frames (line ++ t) rest
frames-IsLine-append line [] rest h = rw append-nil
frames-IsLine-append line (c ∷ cs) rest h =
    rw (h.0, frames)
      (frames-IsLine-append (line ++ c ∷ []) cs rest h.1
        ∙ ap (λ l. frames l rest) (append_assoc line (c ∷ []) cs))

next_line-frames-some :
    (t line first rest : Text)
    → next_line t ≡ some (first, rest)
    → frames line t ≡ (strip_return (line ++ first) ∷ (frames [] rest).0, (frames [] rest).1)
next_line-frames-some [] line first rest h = unfold next_line in cc
next_line-frames-some (c ∷ cs) line first rest h = elim (next_line-Cut c cs first rest h) [
  | inl (e, f, r) ↦ rw (e, frames, f, r, append-nil)
  | inr (e, l, f, n) ↦
      rw (e, frames, f)
        (next_line-frames-some cs (line ++ c ∷ []) l rest n
          ∙ ap (λ x. (strip_return x ∷ (frames [] rest).0, (frames [] rest).1))
              (append_assoc line (c ∷ []) l))
]

take_lines-frames : (fuel : ℕ) (t : Text) → length t < fuel → take_lines fuel t ≡ frames [] t
unfolding take_lines
take_lines-frames zero t h = absurd (omega arith)
take_lines-frames (suc fuel) t h = elim (Option-cases (next_line t)) [
  | inl e ↦
      rw (e, take_lines)
        (sym (
          ap (frames []) (sym (append-nil t))
          ∙ frames-IsLine-append [] t [] (next_line-none-IsLine t e)))
  | inr ((line, rest), e) ↦
      rw
        (e, take_lines, take_lines-frames fuel rest (omega (arith, next_line-length t line rest e)))
        (sym (next_line-frames-some t [] line rest e))
]

-- The loop finds every message of the buffer: it ends by finding no newline, never for want of fuel.
pub drain_lines-frames : (t : Text) → drain_lines t ≡ frames [] t
unfolding drain_lines
drain_lines-frames t = take_lines-frames (suc (length t)) t (omega arith)

frames-left : (line t : Text) → IsLine line → IsLine (frames line t).1
frames-left line [] h = h
frames-left line (c ∷ cs) h = elim (Bool-cases (c == 10)) [
  | inl e ↦ rw (e, frames) (frames-left [] cs tt)
  | inr e ↦ rw (e, frames) (frames-left (line ++ c ∷ []) cs (All-append _ line (c ∷ []) h (e, tt)))
]

frames-append :
    (line a b : Text)
    → frames line (a ++ b)
      ≡ ((frames line a).0 ++ (frames (frames line a).1 b).0, (frames (frames line a).1 b).1)
frames-append line [] b = refl
frames-append line (c ∷ cs) b = elim (Bool-cases (c == 10)) [
  | inl e ↦ rw (e, frames, frames-append [] cs b)
  | inr e ↦ rw (e, frames) (frames-append (line ++ c ∷ []) cs b)
]

-- However a byte stream is cut into pieces, draining the buffer after each piece gives the messages
-- of the whole stream, in order, and the same partial message left over, which holds no newline.
pub drain_lines-append :
    (a b : Text)
    → let (lines, left) = drain_lines a in
      let (later, left') = drain_lines (left ++ b) in
      (drain_lines (a ++ b) ≡ (lines ++ later, left')) × IsLine left
drain_lines-append a b = simp drain_lines-frames (
  frames-append [] a b
      ∙ ap (λ (x : List Text × Text). ((frames [] a).0 ++ x.0, x.1))
          (sym (frames-IsLine-append [] (frames [] a).1 b (frames-left [] a tt))),
  frames-left [] a tt,
)

-- A line and its newline, then more: the line is the first message.
pub drain_lines-line :
    (line rest : Text)
    → IsLine line
    → drain_lines (line ++ (10 ∷ rest))
      ≡ (strip_return line ∷ (drain_lines rest).0, (drain_lines rest).1)
drain_lines-line line rest h = simp drain_lines-frames (frames-IsLine-append [] line (10 ∷ rest) h)

-- One round of the loop.
pub drain_lines-next :
    (t line rest : Text)
    → next_line t ≡ some (line, rest)
    → drain_lines t ≡ (strip_return line ∷ (drain_lines rest).0, (drain_lines rest).1)
drain_lines-next t line rest h = simp drain_lines-frames (next_line-frames-some t [] line rest h)

pub drain_lines-IsLine : (t : Text) → IsLine t → drain_lines t ≡ ([], t)
drain_lines-IsLine t h =
    simp drain_lines-frames (ap (frames []) (sym (append-nil t)) ∙ frames-IsLine-append [] t [] h)

pub drain_lines-none : (t : Text) → next_line t ≡ none → drain_lines t ≡ ([], t)
drain_lines-none t h = drain_lines-IsLine t (next_line-none-IsLine t h)
