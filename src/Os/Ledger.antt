-- ===== src/Os/Ledger.antt =====
-- Who holds which descriptor, read off the calls.
use adsb_tools.Prelude.{ℕ, ◌≡◌, ◌≢◌, Bool, true, false, some, List, [], ◌∷◌, ◌==◌, if◌then◌else◌}
use adsb_tools.Os.{
  Event, opened, foreign, closed, given, unwatched, listening, watched, armed, sent, bound,
  option_set, Os, done,
}

-- A descriptor is not open, handed over, opened for somebody else, or held; the last two not
-- registered with epoll, or registered.
pub data Status : Type 0 where
  gone elsewhere other_idle other_polled idle polled : Status

abbrev pub watch : Status → Status
watch idle = polled
watch polled = polled
watch other_idle = other_polled
watch other_polled = other_polled
watch gone = gone
watch elsewhere = elsewhere

abbrev pub unwatch : Status → Status
unwatch idle = idle
unwatch polled = idle
unwatch other_idle = other_idle
unwatch other_polled = other_idle
unwatch gone = gone
unwatch elsewhere = elsewhere

-- The calls are listed with the last one first.
unfoldable pub status : List Event → ℕ → Status
status [] fd = gone
status (opened x ∷ t) fd = if x == fd then idle else status t fd
status (foreign x ∷ t) fd = if x == fd then other_idle else status t fd
status (given x ∷ t) fd = if x == fd then elsewhere else status t fd
status (closed x ∷ t) fd = if x == fd then gone else status t fd
status (watched x events ∷ t) fd = if x == fd then watch (status t fd) else status t fd
status (unwatched x ∷ t) fd = if x == fd then unwatch (status t fd) else status t fd
status (listening x ∷ t) fd = status t fd
status (armed x seconds nanoseconds ∷ t) fd = status t fd
status (sent x text ∷ t) fd = status t fd
status (bound x address ∷ t) fd = status t fd
status (option_set x name ∷ t) fd = status t fd

abbrev pub held : Status → Bool
held gone = false
held elsewhere = false
held other_idle = false
held other_polled = false
held idle = true
held polled = true

abbrev pub is_open : Status → Bool
is_open gone = false
is_open _ = true

abbrev pub is_idle : Status → Bool
is_idle idle = true
is_idle other_idle = true
is_idle _ = false

abbrev pub is_polled : Status → Bool
is_polled polled = true
is_polled other_polled = true
is_polled _ = false

-- Exactly the descriptors in question are held: none, or one in a given way.
pub record HoldsNone (t : List Event) : Type 0 where
  pub not_held : (x : ℕ) → held (status t x) ≡ false

pub record Holds (how : Status) (fd : ℕ) (t : List Event) : Type 0 where
  pub own : status t fd ≡ how
  pub no_other : (x : ℕ) → x ≢ fd → held (status t x) ≡ false

-- What the program relies on: the documented behaviour of the calls on descriptors that are open,
-- and that the system has descriptors left. `getnameinfo` is asked for the numeric form of an
-- address that the system itself delivered, and the other calls are made on open descriptors with
-- fixed arguments.
pub record Works (os : Os) : Type 0 where
  pub socket_new : (t : List Event) → (x : ℕ) × (os.socket t ≡ some x) × (status t x ≡ gone)
  pub timer_new : (t : List Event) → (x : ℕ) × (os.timerfd_create t ≡ some x) × (status t x ≡ gone)
  pub resolve_new : (t : List Event) → status t (os.asyncaddrinfo_resolve t) ≡ gone
  pub accept_new : (t : List Event) (fd x : ℕ) → os.accept4 t fd ≡ some x → status t x ≡ gone
  pub close_open : (t : List Event) (fd : ℕ) → is_open (status t fd) ≡ true → os.close t fd ≡ true
  pub add_idle :
      (t : List Event) (fd : ℕ) → is_idle (status t fd) ≡ true → os.epoll_ctl_add t fd ≡ done
  pub del_polled :
      (t : List Event) (fd : ℕ) → is_polled (status t fd) ≡ true → os.epoll_ctl_del t fd ≡ done
  pub set :
      (t : List Event) (fd : ℕ) → is_open (status t fd) ≡ true → os.timerfd_settime t fd ≡ true
  pub named : (address : List ℕ) → os.getnameinfo address ≡ true
  pub asked :
      (t : List Event) (fd : ℕ)
      → is_open (status t fd) ≡ true
      → (e : ℕ) × (os.socket_error t fd ≡ some e)
  pub optional :
      (t : List Event) (fd : ℕ) → is_open (status t fd) ≡ true → os.setsockopt t fd ≡ true
  pub listens : (t : List Event) (fd : ℕ) → is_open (status t fd) ≡ true → os.listen t fd ≡ true
  pub local : (t : List Event) (fd : ℕ) → is_open (status t fd) ≡ true → os.getsockname t fd ≡ true
