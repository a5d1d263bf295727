-- ===== src/Client/Shell/Forwarding.antt =====
-- What the shell of src/client_shell.cpp sends of the lines that the user types.
use market_networks.Base.{
  Bool, Bool-cases, List, Option-cases, Text, [], ap, append-nil, append_assoc, arith, false,
  if◌then◌else◌, inl, inr, keep, length, not, refl, some, suc, sym, text_eq, true, zero, ℕ, ◌++◌,
  ◌<◌, ◌||◌, ◌↔◌, ◌∙◌, ◌∷◌, ◌≡◌, ◌≢◌, ◌⊎◌,
}
use market_networks.Network.Framing.{
  next_line, strip_return, next_line-length, drain_lines, drain_lines-next, drain_lines-none,
}
use market_networks.Network.TcpClient.Sending.{send_message-wire, send_message-fd}
use market_networks.Network.TcpClient.{Sent, delivered, blocked, failed}
use market_networks.Client.Shell.{
  Shell, Flow, going, ended, waiting, quit_line, send, shutdown_writes, shell_lines,
}

-- The lines up to the first QUIT, it included.
abbrev pub until_quit : List Text → List Text
until_quit [] = []
until_quit (l ∷ ls) = let rest = until_quit ls in if text_eq l quit_line then l ∷ [] else l ∷ rest

abbrev pub has_quit : List Text → Bool
has_quit [] = false
has_quit (l ∷ ls) = text_eq l quit_line || has_quit ls

-- Empty lines are not sent.
abbrev pub commands : List Text → List Text
commands lines = keep (λ l. not (text_eq l [])) lines

-- As bytes on the wire.
abbrev pub as_text : List Text → Text
as_text [] = []
as_text (l ∷ ls) = (l ++ 10 ∷ []) ++ as_text ls

-- A send hands a prefix of the message to the kernel, all of it exactly if it succeeds.
pub send-prefix :
    (line : Text) (fd : ℕ) (s : Shell)
    → s.client.fd ≡ some fd
    → let (sent, t) = send line s in
      (left : Text) × (t.wire ++ left ≡ s.wire ++ line) × ((sent ≡ delivered) ↔ (left ≡ []))
unfolding send
send-prefix line fd s e =
    let (left, whole, iff) = send_message-wire line fd s.client s.send_answers e in
    (left, append_assoc s.wire _ left ∙ ap (λ t. s.wire ++ t) whole, iff)

pub send-fd : (line : Text) (s : Shell) → (send line s).1.client.fd ≡ s.client.fd
unfolding send
send-fd line s = send_message-fd line s.client s.send_answers

-- What the loop over the lines does with them: it sends a prefix of their text, all of it if it goes
-- on; the input ends with QUIT, and otherwise the part of a line stays.
pub record Forwards (s : Shell) (lines : List Text) (left : Text) (flow : Flow) (t : Shell)
    : Type 0 where
  pub prefix : (rest : Text) × (t.wire ++ rest ≡ s.wire ++ as_text (until_quit lines))
  pub whole : flow ≡ going → t.wire ≡ s.wire ++ as_text (until_quit lines)
  pub stays :
      flow ≡ going
      → has_quit lines ≡ false
      → (t.stdin_buffer ≡ left) × (t.stdin_open ≡ s.stdin_open) × (t.sent_quit ≡ s.sent_quit)
  pub quits : flow ≡ going → has_quit lines ≡ true → (t.stdin_open ≡ false) × (t.sent_quit ≡ true)
  pub connected : t.client.fd ≡ s.client.fd

module _ (s u t : Shell) (line : Text) (lines : List Text) (left : Text) (flow : Flow)
    (sent : u.wire ≡ s.wire ++ (line ++ 10 ∷ []))
    (same : (u.stdin_open ≡ s.stdin_open)
      × (u.sent_quit ≡ s.sent_quit)
      × (u.client.fd ≡ s.client.fd))
    (other : text_eq line quit_line ≡ false) (f : Forwards u lines left flow t) where
  after_line : u.wire ++ as_text (until_quit lines) ≡ s.wire ++ as_text (until_quit (line ∷ lines))
  after_line = rw (other, sent) (append_assoc s.wire (line ++ 10 ∷ []) (as_text (until_quit lines)))

  next-Forwards : Forwards s (line ∷ lines) left flow t
  next-Forwards = record {
    prefix = (f.prefix.0, f.prefix.1 ∙ after_line);
    whole = λ g. f.whole g ∙ after_line;
    stays = λ g h. let (a, b, c) = f.stays g (ground arith) in (a, b ∙ same.0, c ∙ same.1);
    quits = λ g h. f.quits g (ground arith);
    connected = f.connected ∙ same.2;
  }

first_line :
    (line : Text) (lines : List Text)
    → (more : Text) × (as_text (until_quit (line ∷ lines)) ≡ (line ++ 10 ∷ []) ++ more)
first_line line lines = elim (Bool-cases (text_eq line quit_line)) [
  | inl q ↦ ([], rw q)
  | inr q ↦ (as_text (until_quit lines), rw q)
]

-- A line that is not sent whole, or the one that ends the input.
cut-Forwards :
    (s t : Shell) (line : Text) (lines : List Text) (left rest : Text) (flow : Flow)
    → t.wire ++ rest ≡ s.wire ++ (line ++ 10 ∷ [])
    → flow ≢ going
    → t.client.fd ≡ s.client.fd
    → Forwards s (line ∷ lines) left flow t
cut-Forwards s t line lines left rest flow e stop same = record {
  prefix =
      let (more, f) = first_line line lines in
      (
        rest ++ more,
        sym (append_assoc t.wire rest more)
            ∙ ap (λ x. x ++ more) e
            ∙ append_assoc s.wire (line ++ 10 ∷ []) more
            ∙ ap (λ x. s.wire ++ x) (sym f),
      );
  whole = λ g. absurd (stop g);
  stays = λ g. absurd (stop g);
  quits = λ g. absurd (stop g);
  connected = same;
}

quit-Forwards :
    (s t : Shell) (line : Text) (lines : List Text) (left : Text) (flow : Flow)
    → t.wire ≡ s.wire ++ (line ++ 10 ∷ [])
    → text_eq line quit_line ≡ true
    → (t.stdin_open ≡ false) × (t.sent_quit ≡ true) × (t.client.fd ≡ s.client.fd)
    → Forwards s (line ∷ lines) left flow t
quit-Forwards s t line lines left flow e quit (a, b, c) = record {
  prefix = ([], append-nil t.wire ∙ e ∙ rw (quit, append-nil (line ++ 10 ∷ [])));
  whole = λ g. e ∙ rw (quit, append-nil (line ++ 10 ∷ []));
  stays = λ g h. absurd (ground arith);
  quits = λ g h. (a, b);
  connected = c;
}

pub Sent-cases : (x : Sent) → (x ≡ delivered) ⊎ ((x ≡ blocked) ⊎ (x ≡ failed))
Sent-cases delivered = inl refl
Sent-cases blocked = inr (inl refl)
Sent-cases failed = inr (inr refl)

abbrev pub typed_lines : Shell → List Text
typed_lines s = commands (drain_lines s.stdin_buffer).0

abbrev pub Result : Shell → Flow × Shell → Type 0
Result s r = Forwards s (typed_lines s) (drain_lines s.stdin_buffer).1 r.0 r.1

pub shutdown_writes-same :
    (s : Shell)
    → ((shutdown_writes s).wire ≡ s.wire)
      × ((shutdown_writes s).stdin_open ≡ s.stdin_open)
      × ((shutdown_writes s).sent_quit ≡ s.sent_quit)
      × ((shutdown_writes s).client.fd ≡ s.client.fd)
unfolding shutdown_writes
shutdown_writes-same s = elim (Option-cases s.client.fd) [
  | inl e ↦ rw (shutdown_writes, e) (refl, refl, refl, e)
  | inr (fd, e) ↦ rw (shutdown_writes, e) (refl, refl, refl, e)
]

-- A line that is not empty, with the rounds to come.
module _ (fuel fd : ℕ) (s : Shell) (raw rest : Text) (e : s.client.fd ≡ some fd)
    (n : next_line s.stdin_buffer ≡ some (raw, rest))
    (later : (u : Shell)
      → u.stdin_buffer ≡ rest
      → u.client.fd ≡ some fd
      → Result u (shell_lines fuel u)) where
  abbrev line : Text
  line = strip_return raw

  abbrev taken : Shell
  taken = record s { stdin_buffer = rest }

  abbrev sent_line : Shell
  sent_line = (send (line ++ 10 ∷ []) taken).1

  sent_line-same : sent_line.client.fd ≡ some fd
  sent_line-same = send-fd (line ++ 10 ∷ []) taken ∙ e

  sent_line-wire :
      (send (line ++ 10 ∷ []) taken).0 ≡ delivered → sent_line.wire ≡ s.wire ++ (line ++ 10 ∷ [])
  sent_line-wire d =
      let (left, whole, iff) = send-prefix (line ++ 10 ∷ []) fd taken e in
      sym (append-nil sent_line.wire) ∙ ap (λ x. sent_line.wire ++ x) (sym (iff.0 d)) ∙ whole

  sent_part : (left : Text) × (sent_line.wire ++ left ≡ s.wire ++ (line ++ 10 ∷ []))
  sent_part = let (left, whole, iff) = send-prefix (line ++ 10 ∷ []) fd taken e in (left, whole)

  full_line-Result : text_eq line [] ≡ false → Result s (shell_lines (suc fuel) s)
  unfolding shell_lines send
  full_line-Result full = elim (Sent-cases (send (line ++ 10 ∷ []) taken).0) [
    | inl d ↦ elim (Bool-cases (text_eq line quit_line)) [
      | inl quit ↦
          let (a, b, c, f) =
            shutdown_writes-same (record sent_line { sent_quit = true; stdin_open = false }) in
          rw (shell_lines, n, drain_lines-next s.stdin_buffer raw rest n, full, d, quit)
            (quit-Forwards s _ line _ _ going (a ∙ sent_line-wire d) quit
              (b, c, f ∙ sent_line-same ∙ sym e))
      | inr other ↦
          rw (shell_lines, n, drain_lines-next s.stdin_buffer raw rest n, full, d, other)
            (next-Forwards s sent_line _ line _ _ _ (sent_line-wire d)
              (refl, refl, sent_line-same ∙ sym e) other (later sent_line refl sent_line-same))
    ]
    | inr (inl b) ↦
        rw (shell_lines, n, drain_lines-next s.stdin_buffer raw rest n, full, b)
          (cut-Forwards s _ line _ _ sent_part.0 waiting sent_part.1 (λ g. cc)
            (sent_line-same ∙ sym e))
    | inr (inr f) ↦
        rw (shell_lines, n, drain_lines-next s.stdin_buffer raw rest n, full, f)
          (cut-Forwards s _ line _ _ sent_part.0 ended sent_part.1 (λ g. cc)
            (sent_line-same ∙ sym e))
  ]

none-Forwards : (s : Shell) → Forwards s [] s.stdin_buffer going s
none-Forwards s = record {
  prefix = ([], refl);
  whole = λ g. sym (append-nil s.wire);
  stays = λ g h. (refl, refl, refl);
  quits = λ g h. absurd (cc);
  connected = refl;
}

skip-Forwards :
    (s : Shell) (rest : Text) (lines : List Text) (left : Text) {r : Flow × Shell}
    → Forwards (record s { stdin_buffer = rest }) lines left r.0 r.1
    → Forwards s lines left r.0 r.1
skip-Forwards s rest lines left f = record {
  prefix = f.prefix;
  whole = f.whole;
  stays = f.stays;
  quits = f.quits;
  connected = f.connected;
}

pub shell_lines-Result :
    (fuel fd : ℕ) (s : Shell)
    → s.client.fd ≡ some fd
    → length s.stdin_buffer < fuel
    → Result s (shell_lines fuel s)
unfolding shell_lines
shell_lines-Result zero fd s e h = absurd (omega arith)
shell_lines-Result (suc fuel) fd s e h = elim (Option-cases (next_line s.stdin_buffer)) [
  | inl n ↦ rw (shell_lines, n, drain_lines-none s.stdin_buffer n) (none-Forwards s)
  | inr ((raw, rest), n) ↦ elim (Bool-cases (text_eq (strip_return raw) [])) [
    | inl empty ↦
        rw (shell_lines, n, drain_lines-next s.stdin_buffer raw rest n, empty)
          (skip-Forwards s rest _ _ (
            shell_lines-Result fuel fd (record s { stdin_buffer = rest }) e
              (omega (arith, next_line-length s.stdin_buffer raw rest n))))
    | inr full ↦
        full_line-Result fuel fd s raw rest e n
          (λ u b g.
            shell_lines-Result fuel fd u g
              (omega (arith, ap length b, next_line-length s.stdin_buffer raw rest n)))
          full
  ]
]
