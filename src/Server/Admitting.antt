-- ===== src/Server/Admitting.antt =====
-- The login in src/exchange_server.cpp, from the line that a client sends to the reply.
use market_networks.Base.{
  ==_refl, Bool-cases, Text, arith, false, inl, inr, length, refl, some, sym, true, ℕ, ◌++◌, ◌==◌,
  ◌∙◌, ◌≡◌, ◌≤◌,
}
use market_networks.Base.Assoc.{find, find-insert}
use market_networks.Protocol.Words.{IsWord}
use market_networks.Protocol.Parse.Grammar.{log_in}
use market_networks.Protocol.Parse.RoundTrip.{print, parse-print}
use market_networks.Protocol.Response.{ok_message}
use market_networks.Server.State.{
  unknown, trader, ClientSession, Server, has_text, insert_text, put_session,
}
use market_networks.Server.Output.{send_to}
use market_networks.Server.Handlers.{
  same_role, reject_wrong_role, login_client, first_or, handle_login, dispatch, handle_message,
}
use market_networks.Server.Sending.{pending}
use market_networks.Server.Sending.Stream.{sent_to, identity, send_to-FlushedAt}
use market_networks.Server.Sound.{IsSound}
use market_networks.Server.Sound.Dispatching.{handle_message-Steps}

-- The server with the client logged in, before the reply.
admitted : ℕ → Text → ClientSession → Server → Server
admitted fd name x s =
    record (put_session fd (record x { role = trader; username = name; logged_in = true }) s) {
      usernames = insert_text name s.usernames;
    }

module _ (fd : ℕ) (name : Text) (s : Server) (x : ClientSession) (e : find fd s.sessions ≡ some x)
    (r : x.role ≡ unknown) (l : x.logged_in ≡ false) (word : IsWord name) (short : length name ≤ 64)
    (free : has_text name s.usernames ≡ false) where
  login-handled :
      handle_message fd (print (log_in name)) s ≡ send_to fd ok_message (admitted fd name x s)
  unfolding handle_message dispatch handle_login login_client reject_wrong_role same_role first_or
      admitted
  login-handled = rw (parse-print (log_in name) (word, short), e, r, e, l, free) refl

not_logged_in_yet :
    (fd : ℕ) (s : Server) (x : ClientSession)
    → IsSound s
    → find fd s.sessions ≡ some x
    → x.role ≡ unknown
    → x.logged_in ≡ false
not_logged_in_yet fd s x v e r = elim (Bool-cases x.logged_in) [
  | inl l ↦ absurd (ground (arith, (v.sessions fd x e).trading l))
  | inr l ↦ l
]

-- A LOGIN line with a free name, from a connected client that has no role yet, makes it a trader logged
-- in under that name, unless sending the reply drops it. `OK` is appended to its stream, and no other
-- session and no other stream changes. The conditions: the server is sound, and the name is one word of at
-- most 64 bytes that nobody uses.
pub handle_message-admits :
    (fd : ℕ) (name : Text) (s : Server) (x : ClientSession)
    → IsSound s
    → find fd s.sessions ≡ some x
    → x.role ≡ unknown
    → IsWord name
    → length name ≤ 64
    → has_text name s.usernames ≡ false
    → (s' : Server) × (rest : Text) × (handle_message fd (print (log_in name)) s ≡ some s')
      × (sent_to fd s'.wire ++ rest ≡ (sent_to fd s.wire ++ pending x) ++ ok_message)
      × ((y : ClientSession)
          → find fd s'.sessions ≡ some y
          → (pending y ≡ rest) × (identity y ≡ (trader, name, true, x.subscriptions)))
      × ((k : ℕ)
          → (k == fd) ≡ false
          → (sent_to k s'.wire ≡ sent_to k s.wire) × (find k s'.sessions ≡ find k s.sessions))
unfolding admitted put_session
handle_message-admits fd name s x v e r word short free =
    let l = not_logged_in_yet fd s x v e r in
    let z : ClientSession = record x { role = trader; username = name; logged_in = true } in
    let (s', h, _, _) = handle_message-Steps fd (print (log_in name)) x s v e in
    let w = v.sessions fd x e in
    let (rest, whole, here, others) =
      send_to-FlushedAt fd ok_message (admitted fd name x s) s' z w.keyed w.consumed
        (find-insert fd fd z s.sessions ∙ rw (==_refl fd) refl)
        (sym (login-handled fd name s x e r l word short free) ∙ h) in
    (
      s',
      rest,
      h,
      whole,
      here,
      λ k other.
          ((others k other).0, (others k other).1 ∙ find-insert fd k z s.sessions ∙ ground arith),
    )
