-- ===== src/Server/Sound/Roles.antt =====
-- Soundness of the handlers of src/exchange_server.cpp that look at the client's role first.
use market_networks.Base.{
  Bool, Bool-cases, Text, [], ap, arith, codes, false, if_cases, if◌then◌else◌, inl, inr, not, refl,
  some, text_eq_iff, true, ℕ, ◌&&◌, ◌||◌, ◌∙◌, ◌≡◌, ◌≢◌, ◌⊎◌,
}
use market_networks.Base.Assoc.{find, find-insert}
use market_networks.Protocol.Command.{CommandType, ParsedCommand}
use market_networks.Protocol.Response.{ok_message, error_message}
use market_networks.Trading.OrderBook.Owners.{IsOwned-mono}
use market_networks.Server.State.{
  ClientRole, unknown, trader, market_data, ClientSession, Server, has_text, insert_text,
  erase_text, has_fd, insert_fd, erase_fd, put_subscribers, put_session,
}
use market_networks.Server.Output.{send_to}
use market_networks.Server.Handlers.{
  same_role, wrong_role, reject_wrong_role, login_client, first_or, handle_login, is_subscribe,
  change_subscription, handle_subscription, require_logged_in_trader,
}
use market_networks.Server.Sound.{
  IsSession, is_subscribed, name_of, name_in, is_live, live_in, IsSound, Follows-refl, Subsides,
  Subsides-trans, Steps,
}
use market_networks.Server.Names.{IsNamed-same, IsNamed-enter}
use market_networks.Server.Sets.{
  has_fd-insert_fd, has_fd-erase_fd, has_text-insert_text, has_text-erase_text,
  subscription-IsDistinct,
}
use market_networks.Server.Sound.Dropping.{
  name-put_session, name-kept, put_named-IsSound, put_session-some, put_session-Subsides,
}
use market_networks.Server.Sound.Flushing.{send_to-Steps}

-- The roles that a command of the given role admits.
abbrev pub admits : ClientRole → ClientRole → Bool
admits required role = same_role role unknown || same_role role required

admits-trader : (r : ClientRole) → admits trader r ≡ true → r ≢ market_data
unfolding same_role
admits-trader unknown h e = cc
admits-trader trader h e = cc
admits-trader market_data h e = cc

admits-market_data : (r : ClientRole) → admits market_data r ≡ true → r ≢ trader
unfolding same_role
admits-market_data unknown h e = cc
admits-market_data trader h e = cc
admits-market_data market_data h e = cc

subscriber_role :
    (r : ClientRole)
    → admits market_data r ≡ true
    → (if same_role r unknown then market_data else r) ≡ market_data
unfolding same_role
subscriber_role unknown h = refl
subscriber_role trader h = cc
subscriber_role market_data h = refl

-- A client of another role is told so, and the command ends there.
reject_wrong_role-cases :
    (fd : ℕ) (required : ClientRole) (type : CommandType) (x : ClientSession) (s : Server)
    → IsSound s
    → find fd s.sessions ≡ some x
    → (admits required x.role ≡ true) × (reject_wrong_role fd required type s ≡ some (false, s))
      ⊎ (t : Server) × (reject_wrong_role fd required type s ≡ some (true, t))
        × IsSound t
        × Subsides s t
unfolding reject_wrong_role
reject_wrong_role-cases fd required type x s v e = elim (Bool-cases (admits required x.role)) [
  | inl h ↦ inl (h, rw (e, h))
  | inr h ↦
      let (t, f, w, b) = send_to-Steps fd (wrong_role x.role type) s v in
      inr (t, rw (e, h, f), w, b)
]

login_client-Steps :
    (fd : ℕ) (username : Text) (x : ClientSession) (s : Server)
    → IsSound s
    → find fd s.sessions ≡ some x
    → admits trader x.role ≡ true
    → Steps s (login_client fd username x s)
unfolding login_client
login_client-Steps fd username x s v e h =
    if_cases (Steps s) x.logged_in (λ _. send_to-Steps fd _ s v)
      (λ out.
        if_cases (Steps s) (has_text username s.usernames) (λ _. send_to-Steps fd _ s v)
          (λ free. accepted out free))
  where
    y : ClientSession
    y = record x { role = trader; username = username; logged_in = true }

    w : IsSession fd x
    w = v.sessions fd x e

    entered : IsSession fd y
    entered = record {
      keyed = w.keyed;
      consumed = w.consumed;
      trading = λ _. refl;
      watching = λ i k. absurd (admits-trader x.role h (w.watching i k));
    }

    accepted :
        x.logged_in ≡ false
        → has_text username s.usernames ≡ false
        → Steps s (
            send_to fd ok_message
              (record (put_session fd y s) { usernames = insert_text username s.usernames }))
    accepted out free =
        let t : Server = record (put_session fd y s) {
          usernames = insert_text username s.usernames;
        } in
        let (s', f, u', b) = send_to-Steps fd ok_message t (
          put_named-IsSound fd x y s (insert_text username s.usernames) v e entered (λ i. refl)
            (IsNamed-enter s.usernames (name_in s) (name_in (put_session fd y s)) fd v.names
              username (ap name_of e ∙ rw out) free (λ k. name-put_session fd k y s))
            (λ k l. ground (arith, name-put_session fd k y s))) in
        (s', f, u', Subsides-trans s t s' (put_session-Subsides fd x y s e (Follows-refl x) refl) b)

pub handle_login-Steps :
    (fd : ℕ) (cmd : ParsedCommand) (x : ClientSession) (s : Server)
    → IsSound s
    → find fd s.sessions ≡ some x
    → Steps s (handle_login fd cmd s)
unfolding handle_login
handle_login-Steps fd cmd x s v e = elim (reject_wrong_role-cases fd trader cmd.type x s v e) [
  | inl (h, r) ↦ rw (r, e) (login_client-Steps fd (first_or [] cmd.args) x s v e h)
  | inr (t, r, w, b) ↦ rw r (t, refl, w, b)
]

module _ (fd : ℕ) (i : Text) (subscribing : Bool) (x : ClientSession) (s : Server) (v : IsSound s)
    (e : find fd s.sessions ≡ some x) (h : admits market_data x.role ≡ true) where
  subscriber : ClientSession
  subscriber = record x {
    role = if same_role x.role unknown then market_data else x.role;
    subscriptions =
        if subscribing then insert_text i x.subscriptions else erase_text i x.subscriptions;
  }

  changed : Server
  changed = record (put_session fd subscriber s) {
    subscribers =
        put_subscribers i
          (if subscribing then insert_fd fd (s.subscribers i) else erase_fd fd (s.subscribers i))
          s.subscribers;
  }

  subscriber-IsSession : IsSession fd subscriber
  unfolding subscriber
  subscriber-IsSession =
      let w = v.sessions fd x e in
      record {
        keyed = w.keyed;
        consumed = w.consumed;
        trading = λ k. absurd (admits-market_data x.role h (w.trading k));
        watching = λ j k. subscriber_role x.role h;
      }

  changed-subscribed :
      (k : ℕ) (j : Text)
      → has_fd k (changed.subscribers j) ≡ is_subscribed j (find k changed.sessions)
  unfolding changed subscriber put_session put_subscribers
  changed-subscribed k j = ground (
    arith,
    v.subscribed k j,
    v.subscribed k i,
    find-insert fd k subscriber s.sessions,
    has_fd-insert_fd k fd (s.subscribers i),
    has_fd-erase_fd k fd (s.subscribers i),
    has_text-insert_text j i x.subscriptions,
    has_text-erase_text j i x.subscriptions,
    text_eq_iff j i,
  )

  changed-IsSound : IsSound changed
  unfolding changed subscriber put_session
  changed-IsSound = record {
    sessions = λ k z f. elim (put_session-some fd k subscriber z s f) [
      | inl (p, q) ↦ rw (p, q) subscriber-IsSession
      | inr g ↦ v.sessions k z g
    ];
    subscribed = changed-subscribed;
    distinct = subscription-IsDistinct subscribing fd i s.subscribers v.distinct;
    names =
        IsNamed-same s.usernames (name_in s) (name_in (put_session fd subscriber s)) v.names
          (λ k. name-kept fd k x subscriber s e refl);
    book = v.book;
    owned =
        IsOwned-mono (live_in s) (live_in changed) s.book
          (λ k l. ap is_live (name-kept fd k x subscriber s e refl) ∙ l) v.owned;
    indexed = v.indexed;
  }

  change_subscription-Steps : Steps s (change_subscription fd i subscribing x s)
  unfolding change_subscription changed subscriber
  change_subscription-Steps =
      if_cases (Steps s) (not subscribing && not (has_text i x.subscriptions))
        (λ _. send_to-Steps fd _ s v)
        (λ _.
          let (s', f, u, b) = send_to-Steps fd ok_message changed changed-IsSound in
          (
            s',
            f,
            u,
            Subsides-trans s changed s'
                (put_session-Subsides fd x subscriber s e (Follows-refl x) refl) b,
          ))

pub handle_subscription-Steps :
    (fd : ℕ) (cmd : ParsedCommand) (x : ClientSession) (s : Server)
    → IsSound s
    → find fd s.sessions ≡ some x
    → Steps s (handle_subscription fd cmd s)
unfolding handle_subscription
handle_subscription-Steps fd cmd x s v e =
    elim (reject_wrong_role-cases fd market_data cmd.type x s v e) [
      | inl (h, r) ↦
          rw (r, e) (change_subscription-Steps fd cmd.instrument (is_subscribe cmd.type) x s v e h)
      | inr (t, r, w, b) ↦ rw r (t, refl, w, b)
    ]

-- Only a trader who has logged in gets past the check, and then nothing has changed.
pub require_logged_in_trader-cases :
    (fd : ℕ) (type : CommandType) (x : ClientSession) (s : Server)
    → IsSound s
    → find fd s.sessions ≡ some x
    → (x.logged_in ≡ true) × (require_logged_in_trader fd type s ≡ some (true, s))
      ⊎ (t : Server) × (require_logged_in_trader fd type s ≡ some (false, t))
        × IsSound t
        × Subsides s t
unfolding require_logged_in_trader
require_logged_in_trader-cases fd type x s v e =
    elim (reject_wrong_role-cases fd trader type x s v e) [
      | inl (h, r) ↦ elim (Bool-cases x.logged_in) [
        | inl l ↦ inl (l, rw (r, e, l))
        | inr l ↦
            let (t, f, w, b) =
              send_to-Steps fd
                (error_message (codes "Not logged in: send LOGIN <username> before trading")) s v in
            inr (t, rw (r, e, l, f), w, b)
      ]
      | inr (t, r, w, b) ↦ inr (t, rw r, w, b)
    ]
