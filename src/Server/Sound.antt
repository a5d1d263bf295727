-- ===== src/Server/Sound.antt =====
-- What holds of the server of src/exchange_server.cpp between any two steps.
pub mod Dropping
pub mod Replacing
pub mod Flushing
pub mod Handling
pub mod Roles
pub mod Dispatching
pub mod Reading
pub mod Events
pub mod Accepting
pub mod Enrolling
pub mod Closing
pub mod Serving
use market_networks.Base.{
  Bool, Option, Text, arith, false, if◌then◌else◌, length, none, refl, some, true, ℕ, ◌∙◌, ◌≡◌, ◌≤◌,
}
use market_networks.Base.Assoc.{find}
use market_networks.Server.Names.{IsNamed}
use market_networks.Network.EventLoop.Poll.{Indexed}
use market_networks.Trading.OrderBook.Valid.{IsValid}
use market_networks.Trading.OrderBook.Owners.{IsOwned}
use market_networks.Server.Sets.{IsDistinct}
use market_networks.Server.Holding.{Retains, Retains-refl, Retains-trans}
use market_networks.Server.Watched.{IsWatched}
use market_networks.Server.State.{trader, market_data, ClientSession, Server, has_text, has_fd}

-- A client that has logged in is a trader, one that has subscribed a market data client; so none is
-- ever both. The output buffer is consumed from its front.
pub record IsSession (k : ℕ) (x : ClientSession) : Type 0 where
  pub keyed : x.fd ≡ k
  pub consumed : x.out_start ≤ length x.outbuf
  pub trading : x.logged_in ≡ true → x.role ≡ trader
  pub watching : (i : Text) → has_text i x.subscriptions ≡ true → x.role ≡ market_data

abbrev pub is_subscribed : Text → Option ClientSession → Bool
is_subscribed i none = false
is_subscribed i (some x) = has_text i x.subscriptions

-- The name under which a client is logged in.
abbrev pub name_of : Option ClientSession → Option Text
name_of none = none
name_of (some x) = if x.logged_in then some x.username else none

abbrev pub name_in : Server → ℕ → Option Text
name_in s k = name_of (find k s.sessions)

-- Whether a client is logged in.
abbrev pub is_live : Option Text → Bool
is_live none = false
is_live (some name) = true

abbrev pub live_in : Server → ℕ → Bool
live_in s k = is_live (name_in s k)

-- The lists of subscribers are exactly the sessions' own subscriptions, without repetition, the names in use exactly those of
-- the clients that are logged in, no two alike, the book is well formed and every resting order
-- belongs to a client that is logged in, and the event loop's index is consistent.
pub record IsSound (s : Server) : Type 0 where
  pub sessions : (k : ℕ) (x : ClientSession) → find k s.sessions ≡ some x → IsSession k x
  pub subscribed :
      (k : ℕ) (i : Text) → has_fd k (s.subscribers i) ≡ is_subscribed i (find k s.sessions)
  pub distinct : (i : Text) → IsDistinct (s.subscribers i)
  pub names : IsNamed s.usernames (name_in s)
  pub book : IsValid s.book
  pub owned : IsOwned (live_in s) s.book
  pub indexed : Indexed s.loop

-- Between the two a session that is not closing has kept its input, one that is closing has no more.
abbrev pub Follows : ClientSession → ClientSession → Type 0
Follows x y =
    (length y.inbuf ≤ length x.inbuf)
    × (y.closing ≡ false → (x.closing ≡ false) × (y.inbuf ≡ x.inbuf))

pub Follows-refl : (x : ClientSession) → Follows x x
Follows-refl x = (omega arith, λ c. (c, refl))

-- Between the two no session is new, none has more bytes of input waiting, one that is not closing has
-- the same, and the descriptors that are held stay so.
abbrev pub Waits : Server → Server → Type 0
Waits s s' =
    ((k : ℕ) (y : ClientSession)
      → find k s'.sessions ≡ some y
      → (x : ClientSession) × (find k s.sessions ≡ some x) × Follows x y)
    × Retains s s'

pub Waits-refl : (s : Server) → Waits s s
Waits-refl s = (λ k y e. (y, e, Follows-refl y), Retains-refl s)

pub Waits-trans : (s t u : Server) → Waits s t → Waits t u → Waits s u
Waits-trans s t u f g = (
  λ k z e.
      let (y, e', (h, i)) = g.0 k z e in
      let (x, e'', (h', i')) = f.0 k y e' in
      (x, e'', (omega arith, λ c. ((i' (i c).0).0, (i c).1 ∙ (i' (i c).0).1))),
  Retains-trans s t u f.1 g.1,
)

-- Between the two nothing that waits is lost, and the event loop watches the sessions if it did before.
abbrev pub Subsides : Server → Server → Type 0
Subsides s s' = Waits s s' × (IsWatched s → IsWatched s')

pub Subsides-refl : (s : Server) → Subsides s s
Subsides-refl s = (Waits-refl s, λ h. h)

pub Subsides-trans : (s t u : Server) → Subsides s t → Subsides t u → Subsides s u
Subsides-trans s t u f g = (Waits-trans s t u f.0 g.0, λ h. g.1 (f.1 h))

-- A step that is defined behaviour and keeps the server sound.
abbrev pub Steps : Server → Option Server → Type 0
Steps s r = (s' : Server) × (r ≡ some s') × IsSound s' × Subsides s s'
